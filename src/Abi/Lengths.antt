-- ===== src/Abi/Lengths.antt =====
-- The lengths of the encodings that internal/tools/ethabi/decode.go reads: whole words.
use gno_ibc_relayer_api.Prelude.{
  ℕ, ◌+◌, ◌*◌, ◌%◌, ◌≤◌, ◌≡◌, refl, Bool, true, false, ◌++◌, arith, length, length-append,
  Bool-cases, inl, inr,
}
use gno_ibc_relayer_api.Prelude.Strings.{Bytes}
use gno_ibc_relayer_api.Abi.Schema.{
  WordType, Field, Fields, word, bytes, string, struct, array, is_dynamic, word_size,
}
use gno_ibc_relayer_api.Abi.Words.{Value, Values, byte_slice, text, tuple, nil, cons}
use gno_ibc_relayer_api.Abi.Fits.{WordFits, Fits, FitsAll, AllValues}
use gno_ibc_relayer_api.Abi.Hex.{pad_to32}
use gno_ibc_relayer_api.Abi.Hexed.{length-pad_to32}
use gno_ibc_relayer_api.Abi.Encode.{
  encode_bytes, count_values, elem_heads, elem_tails, encode_value, heads, tails, word64, encode,
  heads-dynamic, heads-static, tails-dynamic, tails-static, encode_value-struct, encode_value-array,
}
use gno_ibc_relayer_api.Abi.Located.{length-word64, length-encode_word}

-- A schema of the ABI: its structs have fields.
abbrev mutual
  pub IsAbi : Field → Type 0
  IsAbi (word t) = Unit
  IsAbi bytes = Unit
  IsAbi string = Unit
  IsAbi (struct Fields.nil) = ⊥
  IsAbi (struct (Fields.cons f fs)) = IsAbi f × AreAbi fs
  IsAbi (array e) = IsAbi e
  IsAbi _ = ⊥

  pub AreAbi : Fields → Type 0
  AreAbi Fields.nil = Unit
  AreAbi (Fields.cons f fs) = IsAbi f × AreAbi fs

-- Whole words, and at least one.
abbrev pub AreWords : Bytes → Type 0
AreWords b = (length b % 32 ≡ 0) × (32 ≤ length b)

pub encode_bytes-AreWords : (b : Bytes) → AreWords (encode_bytes b)
unfolding encode_bytes
encode_bytes-AreWords b = ground (
  arith,
  length-append (word64 (length b)) (pad_to32 b),
  length-word64 (length b),
  length-pad_to32 b,
)

pub elem_heads-length :
    (dynamic : Bool) (f : Value → Bytes) (vs : Values) (a b : ℕ)
    → length (elem_heads dynamic f vs a) ≡ length (elem_heads dynamic f vs b)
unfolding elem_heads
elem_heads-length dynamic f nil a b = refl
elem_heads-length true f (cons v vs) a b = omega (
  arith,
  length-append (word64 a) (elem_heads true f vs (a + length (f v))),
  length-append (word64 b) (elem_heads true f vs (b + length (f v))),
  length-word64 a,
  length-word64 b,
  elem_heads-length true f vs (a + length (f v)) (b + length (f v)),
)
elem_heads-length false f (cons v vs) a b = omega (
  arith,
  length-append (f v) (elem_heads false f vs a),
  length-append (f v) (elem_heads false f vs b),
  elem_heads-length false f vs a b,
)

pub elem_heads-dynamic :
    (f : Value → Bytes) (vs : Values) (a : ℕ)
    → length (elem_heads true f vs a) ≡ count_values vs * 32
unfolding elem_heads count_values
elem_heads-dynamic f nil a = refl
elem_heads-dynamic f (cons v vs) a = omega (
  arith,
  length-append (word64 a) (elem_heads true f vs (a + length (f v))),
  length-word64 a,
  elem_heads-dynamic f vs (a + length (f v)),
)

elem_heads-words :
    (dynamic : Bool) (f : Value → Bytes) (vs : Values) (a : ℕ)
    → AllValues (λ v. AreWords (f v)) vs
    → length (elem_heads dynamic f vs a) % 32 ≡ 0
unfolding elem_heads
elem_heads-words dynamic f nil a h = refl
elem_heads-words true f (cons v vs) a h = omega (
  arith,
  length-append (word64 a) (elem_heads true f vs (a + length (f v))),
  length-word64 a,
  elem_heads-words true f vs (a + length (f v)) h.1,
)
elem_heads-words false f (cons v vs) a h =
    omega
      (arith, length-append (f v) (elem_heads false f vs a), h.0, elem_heads-words false f vs a h.1)

elem_tails-words :
    (dynamic : Bool) (f : Value → Bytes) (vs : Values)
    → AllValues (λ v. AreWords (f v)) vs
    → length (elem_tails dynamic f vs) % 32 ≡ 0
unfolding elem_tails
elem_tails-words dynamic f nil h = refl
elem_tails-words true f (cons v vs) h =
    omega (arith, length-append (f v) (elem_tails true f vs), h.0, elem_tails-words true f vs h.1)
elem_tails-words false f (cons v vs) h = refl

pub AllValues-map :
    (P Q : Value → Type 0) (vs : Values)
    → ((v : Value) → P v → Q v)
    → AllValues P vs
    → AllValues Q vs
AllValues-map P Q nil f h = tt
AllValues-map P Q (cons v vs) f h = (f v h.0, AllValues-map P Q vs f h.1)

heads-cons_words :
    (f : Field) (fs : Fields) (v : Value) (vs : Values) (a : ℕ)
    → AreWords (encode_value f v)
    → ((b : ℕ) → length (heads fs vs b) % 32 ≡ 0)
    → AreWords (heads (Fields.cons f fs) (cons v vs) a)
heads-cons_words f fs v vs a h k = elim (Bool-cases (is_dynamic f)) [
  | inl e ↦ rw (heads-dynamic f fs v vs a e) (
      omega (
        arith,
        length-append (word64 a) (heads fs vs (a + length (encode_value f v))),
        length-word64 a,
        k (a + length (encode_value f v)),
      ))
  | inr e ↦
      rw (heads-static f fs v vs a e)
        (omega (arith, length-append (encode_value f v) (heads fs vs a), h, k a))
]

tails-cons_words :
    (f : Field) (fs : Fields) (v : Value) (vs : Values)
    → AreWords (encode_value f v)
    → length (tails fs vs) % 32 ≡ 0
    → length (tails (Fields.cons f fs) (cons v vs)) % 32 ≡ 0
tails-cons_words f fs v vs h k = elim (Bool-cases (is_dynamic f)) [
  | inl e ↦
      rw (tails-dynamic f fs v vs e)
        (omega (arith, length-append (encode_value f v) (tails fs vs), h, k))
  | inr e ↦ rw (tails-static f fs v vs e) k
]

append-AreWords : (a b : Bytes) → AreWords a → length b % 32 ≡ 0 → AreWords (a ++ b)
append-AreWords a b h k = omega (arith, length-append a b)

encode-AreWords :
    (fs : Fields) (vs : Values)
    → ((a : ℕ) → AreWords (heads fs vs a))
    → length (tails fs vs) % 32 ≡ 0
    → AreWords (encode fs vs)
unfolding encode
encode-AreWords fs vs h k =
    append-AreWords (heads fs vs (length (heads fs vs 0))) (tails fs vs)
      (h (length (heads fs vs 0))) k

array-AreWords :
    (e : Field) (vs : Values)
    → AllValues (λ v. AreWords (encode_value e v)) vs
    → AreWords (encode_value (array e) (tuple vs))
array-AreWords e vs h = rw (encode_value-array e vs) (
    append-AreWords (word64 n) (hs ++ ts) (omega (arith, length-word64 n)) (
      omega (
        arith,
        length-append hs ts,
        elem_heads-words (is_dynamic e) (λ v. encode_value e v) vs (n * word_size) h,
        elem_tails-words (is_dynamic e) (λ v. encode_value e v) vs h,
      )))
  where
    n : ℕ
    n = count_values vs

    hs : Bytes
    hs = elem_heads (is_dynamic e) (λ v. encode_value e v) vs (n * word_size)

    ts : Bytes
    ts = elem_tails (is_dynamic e) (λ v. encode_value e v) vs

word-AreWords : (t : WordType) (v : Value) → WordFits t v → AreWords (encode_value (word t) v)
unfolding encode_value
word-AreWords t v h = omega (arith, length-encode_word t v h)

bytes-AreWords : (b : Bytes) → AreWords (encode_value bytes (byte_slice b))
unfolding encode_value
bytes-AreWords b = encode_bytes-AreWords b

string-AreWords : (b : Bytes) → AreWords (encode_value string (text b))
unfolding encode_value
string-AreWords b = encode_bytes-AreWords b

heads_nil-words : (a : ℕ) → length (heads Fields.nil nil a) % 32 ≡ 0
unfolding heads
heads_nil-words a = refl

tails_nil-words : length (tails Fields.nil nil) % 32 ≡ 0
unfolding tails
tails_nil-words = refl

mutual
  pub encode_value-AreWords :
      (f : Field) (v : Value) → IsAbi f → Fits f v → AreWords (encode_value f v)
  encode_value-AreWords (word t) v p h = word-AreWords t v h
  encode_value-AreWords bytes (byte_slice b) p h = bytes-AreWords b
  encode_value-AreWords string (text b) p h = string-AreWords b
  encode_value-AreWords (struct (Fields.cons f fs)) (tuple (cons v vs)) p h =
      rw (encode_value-struct (Fields.cons f fs) (cons v vs)) (
        encode-AreWords (Fields.cons f fs) (cons v vs)
          (λ a.
            heads-cons_words f fs v vs a (encode_value-AreWords f v p.0 h.0)
              (λ b. heads-words fs vs b p.1 h.1))
          (tails-words (Fields.cons f fs) (cons v vs) p h))
  encode_value-AreWords (array e) (tuple vs) p h =
      array-AreWords e vs (AllValues-map _ _ vs (λ v k. encode_value-AreWords e v p k) h)
  encode_value-AreWords (struct Fields.nil) _ p h = absurd p
  encode_value-AreWords _ _ p h = absurd h

  pub heads-words :
      (fs : Fields) (vs : Values) (a : ℕ)
      → AreAbi fs
      → FitsAll fs vs
      → length (heads fs vs a) % 32 ≡ 0
  heads-words (Fields.cons f fs) (cons v vs) a p h =
      (heads-cons_words f fs v vs a (encode_value-AreWords f v p.0 h.0)
        (λ b. heads-words fs vs b p.1 h.1)).0
  heads-words Fields.nil nil a p h = heads_nil-words a
  heads-words _ _ a p h = absurd h

  pub tails-words :
      (fs : Fields) (vs : Values) → AreAbi fs → FitsAll fs vs → length (tails fs vs) % 32 ≡ 0
  tails-words (Fields.cons f fs) (cons v vs) p h =
      tails-cons_words f fs v vs (encode_value-AreWords f v p.0 h.0) (tails-words fs vs p.1 h.1)
  tails-words Fields.nil nil p h = tails_nil-words
  tails-words _ _ p h = absurd h
