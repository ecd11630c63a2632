-- ===== src/Abi/Located.antt =====
-- internal/tools/ethabi/decode.go: the reads of the decoder where an encoding stands in the data.
use mathlib.Core.List.{append_assoc, append-nil}
use native.Mathlib.Nat.{pow-suc, zero-add}
use gno_ibc_relayer_api.Prelude.{
  ℕ, zero, suc, ◌+◌, ◌-◌, ◌*◌, ◌/◌, ◌%◌, ◌^◌, ◌≤◌, ◌<◌, ◌≡◌, refl, sym, ap, ◌∙◌, true, false, subst,
  Bool-cases, inl, inr, ltb, leb, ◌==◌, List, [], if◌then◌else◌, ◌∷◌, ◌++◌, arith, length, drop,
  replicate, any, length-append, length-replicate, drop-append, take-append,
}
use gno_ibc_relayer_api.Prelude.Strings.{Bytes}
use gno_ibc_relayer_api.Abi.Outcome.{ok, slice}
use gno_ibc_relayer_api.Abi.Schema.{
  WordType, uint8, uint32, uint64, uint256, bytes32, bool, address,
}
use gno_ibc_relayer_api.Abi.Fits.{WordFits}
use gno_ibc_relayer_api.Abi.Words.{
  Value, u8, u32, u64, big, fixed32, truth, byte_slice, word_value, bytes_at, max_alloc, round_up32,
  make_bytes, Decoder, big_endian, decode_word_uint64, read_word, nonzero,
}
use gno_ibc_relayer_api.Abi.Encode.{low_bytes, word64, encode_word, encode_bytes}
use gno_ibc_relayer_api.Abi.Reads.{slice-in_range, padded_length}
use gno_ibc_relayer_api.Abi.Hex.{pad_to32}
use gno_ibc_relayer_api.Abi.Hexed.{length-pad_to32}
use gno_ibc_relayer_api.Prelude.Int.{ℤ, add_int, ltb_ℤ}

pub length-low_bytes : (k n : ℕ) → length (low_bytes k n) ≡ k
unfolding low_bytes
length-low_bytes zero n = refl
length-low_bytes (suc k) n =
    omega
      (arith, length-append (low_bytes k (n / 256)) (n % 256 ∷ []), length-low_bytes k (n / 256))

big_endian-snoc :
    (acc : ℕ) (bs : Bytes) (b : ℕ) → big_endian acc (bs ++ b ∷ []) ≡ big_endian acc bs * 256 + b
unfolding big_endian
big_endian-snoc acc [] b = refl
big_endian-snoc acc (c ∷ bs) b = big_endian-snoc (acc * 256 + c) bs b

-- The bytes of a number are read back.
pub big_endian-low_bytes : (k n : ℕ) → n < 256 ^ k → big_endian 0 (low_bytes k n) ≡ n
unfolding low_bytes big_endian
big_endian-low_bytes zero n h = omega arith
big_endian-low_bytes (suc k) n h =
    big_endian-snoc 0 (low_bytes k (n / 256)) (n % 256)
    ∙ omega (arith, big_endian-low_bytes k (n / 256) (omega (arith, pow-suc 256 k, h)))

any-replicate_zero : (n : ℕ) → any nonzero (replicate n 0) ≡ false
unfolding any
any-replicate_zero zero = refl
any-replicate_zero (suc n) = any-replicate_zero n

pub length-word64 : (n : ℕ) → length (word64 n) ≡ 32
unfolding word64
length-word64 n =
    omega (arith, length-append (replicate 24 0) (low_bytes 8 n), length-low_bytes 8 n)

decode_word_uint64-word64 : (n : ℕ) → n < 2 ^ 64 → decode_word_uint64 (word64 n) ≡ ok n
unfolding decode_word_uint64 word64 any
decode_word_uint64-word64 n h = ground (arith, length-low_bytes 8 n, big_endian-low_bytes 8 n)

-- The bytes stand at the position in the data.
abbrev pub At : Decoder → ℕ → Bytes → Type 0
At d pos bz = (rest : Bytes) × (drop pos d.content ≡ bz ++ rest)

drop_nil : {A : Type 0} (n : ℕ) → drop {A = A} n [] ≡ []
drop_nil zero = refl
drop_nil (suc n) = refl

drop-drop : {A : Type 0} (m n : ℕ) (xs : List A) → drop (m + n) xs ≡ drop n (drop m xs)
drop-drop zero n xs = rw zero-add refl
drop-drop (suc m) n [] = drop_nil (suc m + n) ∙ sym (drop_nil n)
drop-drop (suc m) n (x ∷ xs) =
    let e : suc m + n ≡ suc (m + n) = omega arith in rw e (drop-drop m n xs)

module _ (d : Decoder) where
  pub At-left : (pos : ℕ) (a b : Bytes) → At d pos (a ++ b) → At d pos a
  At-left pos a b (rest, e) = (b ++ rest, e ∙ append_assoc a b rest)

  pub At-right : (pos : ℕ) (a b : Bytes) → At d pos (a ++ b) → At d (pos + length a) b
  At-right pos a b (rest, e) = (
    rest,
    drop-drop pos (length a) d.content
        ∙ ap (drop (length a)) (e ∙ append_assoc a b rest)
        ∙ drop-append a (b ++ rest),
  )

  pub slice-At :
      (pos n : ℕ) (bz : Bytes)
      → At d pos bz
      → length bz ≡ n
      → pos + n ≤ length d.content
      → slice d.content pos (pos + n) ≡ ok bz
  slice-At pos n bz (rest, e) len inside =
      slice-in_range d.content pos n inside
      ∙ ap ok
          (let same : pos + n - pos ≡ length bz = omega arith in rw (same, e) (take-append bz rest))

  pub read_word-At :
      (pos n : ℕ)
      → At d pos (word64 n)
      → n < 2 ^ 64
      → pos + 32 ≤ length d.content
      → read_word d pos ≡ ok n
  unfolding read_word
  read_word-At pos n a small inside =
      rw (read_word, slice-At pos 32 (word64 n) a (length-word64 n) inside)
        (decode_word_uint64-word64 n small)

pad_to32-split : (b : Bytes) → (zeros : Bytes) × (pad_to32 b ≡ b ++ zeros)
unfolding pad_to32
pad_to32-split b = elim (Bool-cases (length b % 32 == 0)) [
  | inl e ↦ ([], rw (e, pad_to32) (sym (append-nil b)))
  | inr e ↦ (replicate (32 - length b % 32) 0, rw (e, pad_to32) refl)
]

round_up32-pad_to32 :
    (b : Bytes) → length b ≤ max_alloc → round_up32 (length b) ≡ length (pad_to32 b)
unfolding round_up32
round_up32-pad_to32 b h = ground (arith, length-pad_to32 b)

pub length-encode_word : (t : WordType) (v : Value) → WordFits t v → length (encode_word t v) ≡ 32
unfolding encode_word
length-encode_word uint8 (u8 n) h = length-word64 n
length-encode_word uint32 (u32 n) h = length-word64 n
length-encode_word uint64 (u64 n) h = length-word64 n
length-encode_word uint256 (big n) h = length-low_bytes 32 n
length-encode_word bytes32 (fixed32 b) h = h
length-encode_word bool (truth b) h = length-word64 (if b then 1 else 0)
length-encode_word address (byte_slice b) h =
    omega (arith, length-append (replicate 12 0) b, length-replicate 12 (let z : ℕ = 0 in z))
length-encode_word _ _ h = absurd h

module _ (d : Decoder) where
  -- A word is decoded to the value that it encodes.
  pub word_value-At :
      (t : WordType) (v : Value) (pos : ℕ)
      → WordFits t v
      → At d pos (encode_word t v)
      → pos + 32 ≤ length d.content
      → word_value t d pos ≡ ok v
  unfolding word_value encode_word any
  word_value-At uint8 (u8 n) pos fits a inside =
      rw (word_value, read_word-At d pos n a (omega arith) inside) (ground arith)
  word_value-At uint32 (u32 n) pos fits a inside =
      rw (word_value, read_word-At d pos n a (omega arith) inside) (ground arith)
  word_value-At uint64 (u64 n) pos fits a inside =
      rw (word_value, read_word-At d pos n a fits inside) refl
  word_value-At uint256 (big n) pos fits a inside =
      rw
        (
          word_value,
          slice-At d pos 32 (low_bytes 32 n) a (length-low_bytes 32 n) inside,
          big_endian-low_bytes 32 n fits,
        )
        refl
  word_value-At bytes32 (fixed32 b) pos fits a inside =
      rw (word_value, slice-At d pos 32 b a fits inside) refl
  word_value-At bool (truth b) pos fits a inside =
      rw (word_value, read_word-At d pos (if b then 1 else 0) a (ground arith) inside)
        (ground arith)
  word_value-At address (byte_slice b) pos fits a inside =
      rw
        (
          word_value,
          slice-At d pos 12 (replicate 12 0) (At-left d pos (replicate 12 0) b a) refl
              (omega arith),
          address_low,
        )
        refl
    where
      address_low : slice d.content (pos + 12) (pos + 32) ≡ ok b
      address_low =
          let e : pos + 12 + 20 ≡ pos + 32 = omega arith in
          rw e at
            (slice-At d (pos + 12) 20 b (At-right d pos (replicate 12 0) b a) fits (omega arith))
  word_value-At _ _ pos fits a inside = absurd fits

  -- A byte string is decoded where it stands, if it is shorter than what can be allocated.
  pub bytes_at-At :
      (b : Bytes) (pos end : ℕ)
      → At d pos (encode_bytes b)
      → pos + length (encode_bytes b) ≤ end
      → end ≤ length d.content
      → length d.content ≤ max_alloc
      → bytes_at d pos end ≡ ok b
  unfolding bytes_at encode_bytes
  bytes_at-At b pos end a inside total small =
      let pad : round_up32 (length b) ≡ length (pad_to32 b) =
        round_up32-pad_to32 b (omega (arith, size)) in
      let word : read_word d pos ≡ ok (length b) =
        read_word-At d pos (length b) (At-left d pos (word64 (length b)) (pad_to32 b) a)
          (omega (arith, size)) (omega (arith, size)) in
      let exact : (length b ≤ round_up32 (length b))
          × (add_int (pos + 32) (round_up32 (length b)) ≡ ℤ.pos (pos + 32 + round_up32 (length b)))
          × (make_bytes (length b) ≡ ok (length b)) =
        padded_length (pos + 32) (length b) (omega (arith, size)) (omega (arith, size)) in
      let room : leb (pos + 32) end ≡ true = ground (arith, size) in
      let fits : ltb_ℤ (ℤ.pos end) (ℤ.pos (pos + 32 + round_up32 (length b))) ≡ false =
        ground (arith, size, pad) in
      let long : ltb (round_up32 (length b)) (length b) ≡ false = ground (arith, exact.0) in
      rw (bytes_at, room, word, exact.1, fits, long, exact.2)
        (slice-At d (pos + 32) (length b) b contents refl (omega (arith, size)))
    where
      size : (length (encode_bytes b) ≡ 32 + length (pad_to32 b)) × (length b ≤ length (pad_to32 b))
      size = (
        omega (arith, length-append (word64 (length b)) (pad_to32 b), length-word64 (length b)),
        (length-pad_to32 b).2,
      )

      contents : At d (pos + 32) b
      contents =
          let (zeros, e) = pad_to32-split b in
          let padded : At d (pos + length (word64 (length b))) (pad_to32 b) =
            At-right d pos (word64 (length b)) (pad_to32 b) a in
          At-left d (pos + 32) b zeros (
            subst (At d (pos + 32)) e
              (subst (λ n. At d (pos + n) (pad_to32 b)) (length-word64 (length b)) padded))
