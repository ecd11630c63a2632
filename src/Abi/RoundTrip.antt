-- ===== src/Abi/RoundTrip.antt =====
-- internal/tools/ethabi/decode.go: `Decode` reads back what encodes values, for every schema of the ABI.
use mathlib.Core.List.{append-nil}
use gno_ibc_relayer_api.Prelude.{
  ℕ, ◌+◌, ◌%◌, ◌≤◌, ◌≡◌, refl, sym, ap, true, false, [], arith, length, length-append, ◌==◌,
}
use gno_ibc_relayer_api.Prelude.Membership.{Bool-apart}
use gno_ibc_relayer_api.Abi.Outcome.{ok}
use gno_ibc_relayer_api.Abi.Schema.{
  WordType, Field, Fields, word, bytes, string, struct, array, is_dynamic, word_size,
  max_decode_depth,
}
use gno_ibc_relayer_api.Abi.Words.{
  Value, Values, Decoder, byte_slice, text, tuple, nil, cons, max_alloc,
}
use gno_ibc_relayer_api.Abi.Decoder.{static_value, value_at, tuple_at, decode}
use gno_ibc_relayer_api.Abi.Fits.{Fits, FitsAll}
use gno_ibc_relayer_api.Abi.Encode.{heads, tails, encode, encode_value-struct}
use gno_ibc_relayer_api.Abi.Lengths.{
  IsAbi, AreAbi, AllValues-map, encode_value-AreWords, heads-words, tails-words,
}
use gno_ibc_relayer_api.Abi.Loop.{
  Reads, ReadsAll, word-Reads, static_word-Reads, bytes-Reads, string-Reads, nil-ReadsAll,
  cons-ReadsAll,
}
use gno_ibc_relayer_api.Abi.Nested.{struct-Reads, static_struct-Reads, tuple-reads}
use gno_ibc_relayer_api.Abi.Arrays.{array-Reads}

-- The nesting of a field at a depth stays within the limit.
abbrev mutual
  pub Within : ℕ → Field → ℕ → Type 0
  Within limit (struct fs) k = (k + 1 ≤ limit) × WithinAll limit fs (k + 1)
  Within limit (array e) k = (k + 1 ≤ limit) × Within limit e (k + 1)
  Within limit _ k = Unit

  pub WithinAll : ℕ → Fields → ℕ → Type 0
  WithinAll limit Fields.nil k = Unit
  WithinAll limit (Fields.cons f fs) k = Within limit f k × WithinAll limit fs k

-- Arrays and byte strings are in no head.
module _ {P : Type 0} where
  no_static_array : (e : Field) → is_dynamic (array e) ≡ false → P
  unfolding is_dynamic
  no_static_array e h = absurd (Bool-apart true refl h)

  no_static_bytes : is_dynamic bytes ≡ false → P
  unfolding is_dynamic
  no_static_bytes h = absurd (Bool-apart true refl h)

  no_static_string : is_dynamic string ≡ false → P
  unfolding is_dynamic
  no_static_string h = absurd (Bool-apart true refl h)

encode-long :
    (f : Field) (fs : Fields) (vs : Values)
    → IsAbi (struct (Fields.cons f fs))
    → FitsAll (Fields.cons f fs) vs
    → 32 ≤ length (encode (Fields.cons f fs) vs)
encode-long f fs vs p h = omega (
  arith,
  ap length (encode_value-struct (Fields.cons f fs) vs),
  encode_value-AreWords (struct (Fields.cons f fs)) (tuple vs) p h,
)

module _ (d : Decoder) (small : length d.content ≤ max_alloc) (end : ℕ)
    (inside : end ≤ length d.content) where
  abbrev Trips : Field → Type 0
  Trips f =
      (v : Value) (k : ℕ)
      → IsAbi f
      → Fits f v
      → Within d.max_depth f k
      → Reads d small end inside (λ p. value_at f d p end k) f v
        × (is_dynamic f ≡ false → Reads d small end inside (λ p. static_value f d p end k) f v)

  abbrev TripsAll : Fields → Type 0
  TripsAll fs =
      (vs : Values) (k : ℕ)
      → AreAbi fs
      → FitsAll fs vs
      → WithinAll d.max_depth fs k
      → ReadsAll d small end inside fs vs k

  word-Trips : (t : WordType) → Trips (word t)
  word-Trips t v k p fits deep = (
    word-Reads d small end inside t v k fits,
    λ _. static_word-Reads d small end inside t v k fits,
  )

  bytes-Trips : Trips bytes
  bytes-Trips (byte_slice b) k p fits deep =
      (bytes-Reads d small end inside b k, λ h. no_static_bytes h)
  bytes-Trips _ k p fits deep = absurd fits

  string-Trips : Trips string
  string-Trips (text b) k p fits deep =
      (string-Reads d small end inside b k, λ h. no_static_string h)
  string-Trips _ k p fits deep = absurd fits

  struct-Trips :
      (f : Field) (fs : Fields) → TripsAll (Fields.cons f fs) → Trips (struct (Fields.cons f fs))
  struct-Trips f fs trips (tuple vs) k p fits deep =
      let reads : ReadsAll d small end inside (Fields.cons f fs) vs (k + 1) =
        trips vs (k + 1) p fits deep.1 in
      (
        struct-Reads d small end inside (Fields.cons f fs) vs k p fits deep.0 reads,
        λ _.
            static_struct-Reads d small end inside (Fields.cons f fs) vs k p fits
              (encode-long f fs vs p fits) deep.0 reads,
      )
  struct-Trips f fs trips _ k p fits deep = absurd fits

  array-Trips : (e : Field) → Trips e → Trips (array e)
  array-Trips e trips (tuple vs) k p fits deep = (
    array-Reads d small end inside e k vs p fits deep.0
        (AllValues-map _ _ vs (λ v h. (trips v (k + 1) p h deep.1).0) fits)
        (λ fixed. AllValues-map _ _ vs (λ v h. (trips v (k + 1) p h deep.1).1 fixed) fits),
    λ h. no_static_array e h,
  )
  array-Trips e trips _ k p fits deep = absurd fits

  nil-TripsAll : TripsAll Fields.nil
  nil-TripsAll nil k p fits deep = nil-ReadsAll d small end inside k
  nil-TripsAll (cons v vs) k p fits deep = absurd fits

  cons-TripsAll : (f : Field) (fs : Fields) → Trips f → TripsAll fs → TripsAll (Fields.cons f fs)
  cons-TripsAll f fs trip trips (cons v vs) k p fits deep =
      let (dynamic, static) = trip v k p.0 fits.0 deep.0 in
      cons-ReadsAll d small end inside f fs v vs k p.0 fits.0 dynamic static
        (trips vs k p.1 fits.1 deep.1)
  cons-TripsAll f fs trip trips nil k p fits deep = absurd fits

  mutual
    value-Trips : (f : Field) → Trips f
    value-Trips (word t) = word-Trips t
    value-Trips bytes = bytes-Trips
    value-Trips string = string-Trips
    value-Trips (struct (Fields.cons f fs)) =
        struct-Trips f fs (cons-TripsAll f fs (value-Trips f) (fields-TripsAll fs))
    value-Trips (array e) = array-Trips e (value-Trips e)
    value-Trips (struct Fields.nil) = λ v k p. absurd p
    value-Trips _ = λ v k p. absurd p

    fields-TripsAll : (fs : Fields) → TripsAll fs
    fields-TripsAll Fields.nil = nil-TripsAll
    fields-TripsAll (Fields.cons f fs) = cons-TripsAll f fs (value-Trips f) (fields-TripsAll fs)

encode-whole :
    (fs : Fields) (vs : Values) → AreAbi fs → FitsAll fs vs → length (encode fs vs) % 32 ≡ 0
unfolding encode
encode-whole fs vs p fits = omega (
  arith,
  length-append (heads fs vs (length (heads fs vs 0))) (tails fs vs),
  heads-words fs vs (length (heads fs vs 0)) p fits,
  tails-words fs vs p fits,
)

-- For every schema of the ABI that is nested in at most 255 levels, decoding what encodes fitting values
-- gives the values, if the encoding is no longer than what Go can allocate.
pub decode-encode :
    (fs : Fields) (vs : Values)
    → AreAbi fs
    → FitsAll fs vs
    → WithinAll max_decode_depth fs 1
    → length (encode fs vs) ≤ max_alloc
    → decode fs (encode fs vs) ≡ ok vs
unfolding decode tuple_at
decode-encode fs vs p fits deep small =
    let aligned : (length (encode fs vs) % word_size == 0) ≡ true =
      ground (arith, encode-whole fs vs p fits) in
    rw aligned (
      tuple-reads d small (length (encode fs vs)) (omega arith) fs vs 0 0 p fits (omega arith)
        (fields-TripsAll d small (length (encode fs vs)) (omega arith) fs vs 1 p fits deep)
        ([], sym (append-nil (encode fs vs))) (omega arith))
  where
    d : Decoder
    d = record { content = encode fs vs; max_depth = max_decode_depth }
