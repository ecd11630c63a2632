-- ===== src/Abi/Reads.antt =====
-- The reads of a decoder stay within the data, and words have their ranges.
use native.Mathlib.Nat.{pow-suc}
use native.Mathlib.Decide.{dec_lt}
use gno_ibc_relayer_api.Prelude.{
  ℕ, ◌+◌, ◌-◌, ◌*◌, ◌^◌, ◌≤◌, ◌<◌, ◌≡◌, [], ◌∷◌, arith, length, take, drop, length-take,
  length-drop, All-take, All-drop, any, not, leb, ltb, ◌||◌,
}
use gno_ibc_relayer_api.Prelude.Int.{ℤ, add_int, ltb_ℤ}
use gno_ibc_relayer_api.Prelude.Strings.{Bytes}
use gno_ibc_relayer_api.Abi.Outcome.{
  Outcome, ok, err, panic, slice, ◌>>=◌, ◌>>◌, guard, invalid_data,
}
use gno_ibc_relayer_api.Abi.Schema.{
  WordType, uint8, uint32, uint64, uint256, bytes32, bool, address, word_size,
}
use gno_ibc_relayer_api.Abi.Words.{
  Decoder, big_endian, decode_word_uint64, read_word, word_value, round_up32, make_bytes, bytes_at,
  nonzero, max_alloc, at_most,
}
use gno_ibc_relayer_api.Abi.Fits.{AreBytes, WordFits, IsOversized, Ends, Ends-bind, Ends-guard}

pub slice-in_range :
    (bz : Bytes) (lo n : ℕ)
    → lo + n ≤ length bz
    → slice bz lo (lo + n) ≡ ok (take (lo + n - lo) (drop lo bz))
unfolding slice
slice-in_range bz lo n h = ground arith

pub length-slice :
    (bz : Bytes) (lo n : ℕ) → lo + n ≤ length bz → length (take (lo + n - lo) (drop lo bz)) ≡ n
length-slice bz lo n h = omega (arith, length-take (lo + n - lo) (drop lo bz), length-drop lo bz)

pub big_endian-lt :
    (acc : ℕ) (bs : Bytes) → AreBytes bs → big_endian acc bs < (acc + 1) * 256 ^ length bs
unfolding big_endian
big_endian-lt acc [] h = omega arith
big_endian-lt acc (b ∷ bs) h =
    rw (pow-suc 256 (length bs)) (omega (arith, big_endian-lt (acc * 256 + b) bs h.1, grow))
  where
    grow : (acc * 256 + b + 1) * 256 ^ length bs ≤ (acc + 1) * (256 ^ length bs * 256)
    grow = grind arith

big_endian-lt_of_length : (n : ℕ) (w : Bytes) → length w ≡ n → AreBytes w → big_endian 0 w < 256 ^ n
big_endian-lt_of_length n w e h = rw e at (big_endian-lt_one w h)
  where
    big_endian-lt_one : (w : Bytes) → AreBytes w → big_endian 0 w < 256 ^ length w
    big_endian-lt_one w h = omega (arith, big_endian-lt 0 w h)

decode_word_uint64-Ends :
    (d : Decoder) (w : Bytes) → AreBytes w → Ends d (λ v. v < 2 ^ 64) (decode_word_uint64 w)
unfolding decode_word_uint64
decode_word_uint64-Ends d w h = ground (
  arith,
  length-drop 24 w,
  big_endian-lt_of_length 8 (drop 24 w),
  All-drop (λ (b : ℕ). b < 256) 24 w h,
)

at_most-Ends :
    (d : Decoder) (limit : ℕ) (o : Outcome ℕ)
    → Ends d (λ v. v < 2 ^ 64) o
    → Ends d (λ v. v ≤ limit) (at_most limit o)
at_most-Ends d limit (ok v) h = ground arith
at_most-Ends d limit (err e) h = tt
at_most-Ends d limit panic h = h

AreBytes-slice : (bz : Bytes) (lo n : ℕ) → AreBytes bz → AreBytes (take n (drop lo bz))
AreBytes-slice bz lo n h = All-take (λ b. b < 256) n (drop lo bz) (All-drop (λ b. b < 256) lo bz h)

module _ (d : Decoder) (bytes_ok : AreBytes d.content) where
  slice-Ends :
      (lo n : ℕ)
      → lo + n ≤ length d.content
      → Ends d (λ w. (length w ≡ n) × AreBytes w) (slice d.content lo (lo + n))
  slice-Ends lo n h =
      rw (slice-in_range d.content lo n h)
        (length-slice d.content lo n h, AreBytes-slice d.content lo (lo + n - lo) bytes_ok)

  pub read_word-Ends :
      (pos : ℕ) → pos + word_size ≤ length d.content → Ends d (λ v. v < 2 ^ 64) (read_word d pos)
  unfolding read_word
  read_word-Ends pos h =
      Ends-bind d (λ w. (length w ≡ 32) × AreBytes w) (λ v. v < 2 ^ 64) _ decode_word_uint64
        (slice-Ends pos word_size h) (λ w _ k. decode_word_uint64-Ends d w k.1)

  at_most-word :
      (limit pos : ℕ)
      → pos + word_size ≤ length d.content
      → Ends d (λ v. v ≤ limit) (at_most limit (read_word d pos))
  at_most-word limit pos h = at_most-Ends d limit (read_word d pos) (read_word-Ends pos h)

  address_low :
      (pos : ℕ)
      → pos + word_size ≤ length d.content
      → Ends d (λ w. (length w ≡ 20) × AreBytes w) (slice d.content (pos + 12) (pos + word_size))
  address_low pos h =
      let e : pos + 12 + 20 ≡ pos + word_size = omega arith in
      rw e at (slice-Ends (pos + 12) 20 (omega arith))

  -- A word within the data decodes to a value of its type, or is refused.
  pub word_value-Ends :
      (t : WordType) (pos : ℕ)
      → pos + word_size ≤ length d.content
      → Ends d (WordFits t) (word_value t d pos)
  unfolding word_value
  word_value-Ends uint8 pos h =
      Ends-bind d (λ v. v ≤ 255) (WordFits uint8) (at_most 255 (read_word d pos)) _
        (at_most-word 255 pos h) (λ v _ k. omega arith)
  word_value-Ends uint32 pos h =
      Ends-bind d (λ v. v ≤ 0xFFFFFFFF) (WordFits uint32) (at_most 0xFFFFFFFF (read_word d pos)) _
        (at_most-word 0xFFFFFFFF pos h) (λ v _ k. omega arith)
  word_value-Ends uint64 pos h =
      Ends-bind d (λ v. v < 2 ^ 64) (WordFits uint64) (read_word d pos) _ (read_word-Ends pos h)
        (λ v _ k. k)
  word_value-Ends uint256 pos h =
      Ends-bind d (λ w. (length w ≡ 32) × AreBytes w) (WordFits uint256) _ _
        (slice-Ends pos word_size h) (λ w _ k. big_endian-lt_of_length 32 w k.0 k.1)
  word_value-Ends bytes32 pos h =
      Ends-bind d (λ w. (length w ≡ 32) × AreBytes w) (WordFits bytes32) _ _
        (slice-Ends pos word_size h) (λ w _ k. k.0)
  word_value-Ends bool pos h =
      Ends-bind d (λ v. v ≤ 1) (WordFits bool) (at_most 1 (read_word d pos)) _
        (at_most-word 1 pos h) (λ v _ k. tt)
  word_value-Ends address pos h =
      Ends-bind d (λ w. (length w ≡ 12) × AreBytes w) (WordFits address) _ _
        (slice-Ends pos 12 (omega arith))
        λ high _ k. Ends-guard d (WordFits address) (not (any nonzero high)) invalid_data _ λ _.
          Ends-bind d (λ w. (length w ≡ 20) × AreBytes w) (WordFits address) _ _ (address_low pos h)
            (λ low _ l. l.0)

-- The wrapping arithmetic of `bytesAt` is exact on a length that can be allocated.
pub padded_length :
    (start len : ℕ)
    → start < 2 ^ 62
    → len ≤ max_alloc
    → (len ≤ round_up32 len)
      × (add_int start (round_up32 len) ≡ ℤ.pos (start + round_up32 len))
      × (make_bytes len ≡ ok len)
unfolding round_up32 add_int make_bytes
padded_length start len h k = ground arith

oversized-Ends :
    {A : Type 0} (d : Decoder) (o : Outcome A) → IsOversized d → Ends d (λ _. Unit {0}) o
oversized-Ends d (ok a) h = tt
oversized-Ends d (err e) h = tt
oversized-Ends d panic h = h

-- Whatever the length word says, `bytesAt` returns bytes or an error, unless that word is oversized.
pub bytes_at-Ends :
    (d : Decoder) (pos end : ℕ)
    → AreBytes d.content
    → end ≤ length d.content
    → length d.content < 2 ^ 62
    → Ends d (λ _. Unit {0}) (bytes_at d pos end)
unfolding bytes_at
bytes_at-Ends d pos end b h m = Ends-guard d P (leb (pos + word_size) end) invalid_data _ λ g.
    Ends-bind d (λ v. v < 2 ^ 64) P (read_word d pos) _ (read_word-Ends d b pos (ground arith))
      λ len e k. elim (dec_lt max_alloc len) [
        | yes big ↦ oversized-Ends d _ (pos, len, e, big)
        | no small ↦ small_length len (ground arith) (omega arith)
      ]
  where
    P : Bytes → Type 0
    P b = Unit {0}

    small_length :
        (len : ℕ)
        → pos + word_size < 2 ^ 62
        → len ≤ max_alloc
        → Ends d P (do
          guard
              (not (
                ltb_ℤ (ℤ.pos end) (add_int (pos + word_size) (round_up32 len))
                || ltb (round_up32 len) len))
              invalid_data
          out ← make_bytes len
          slice d.content (pos + word_size) (pos + word_size + out))
    small_length len s k =
        let p = padded_length (pos + word_size) len s k in
        rw (p.1, p.2)
          (Ends-guard d P
            (not (
              ltb_ℤ (ℤ.pos end) (ℤ.pos (pos + word_size + round_up32 len))
              || ltb (round_up32 len) len))
            invalid_data _
            λ g. rw (slice-in_range d.content (pos + word_size) len (ground (arith, p.0))) tt)
