-- ===== src/Abi/Hexed.antt =====
-- Hexadecimal text and padding: what `fromHex` returns, and that it inverts hex.EncodeToString.
use mathlib.Core.Path.{subst}
use mathlib.Core.Option.{some-injective}
use gno_ibc_relayer_api.Prelude.{
  ℕ, zero, suc, ◌+◌, ◌-◌, ◌/◌, ◌%◌, ◌≤◌, ◌<◌, ◌≡◌, refl, ap, false, Option, none, some, List, [],
  ◌∷◌, ◌++◌, arith, length, replicate, All, take, length-append, length-replicate, take-append,
  take-length, inl, inr, Bool-cases, ◌==◌,
}
use gno_ibc_relayer_api.Prelude.Strings.{Bytes}
use gno_ibc_relayer_api.Abi.Outcome.{ok}
use gno_ibc_relayer_api.Abi.Schema.{word_size}
use gno_ibc_relayer_api.Abi.Hex.{
  hex_digit, hex_pair, cons_byte, decode_hex, hex_char, encode_hex, trim_0x, from_hex, pad_to32,
}
use gno_ibc_relayer_api.Abi.Fits.{AreBytes}

hex_digit-hex_char : (v : ℕ) → v < 16 → hex_digit (hex_char v) ≡ some v
unfolding hex_digit hex_char
hex_digit-hex_char v h = ground arith

hex_digit-lt : (c : ℕ) {v : ℕ} → hex_digit c ≡ some v → v < 16
unfolding hex_digit
hex_digit-lt c h = ground arith

hex_pair-lt :
    (x y : Option ℕ) {b : ℕ}
    → ((v : ℕ) → x ≡ some v → v < 16)
    → ((v : ℕ) → y ≡ some v → v < 16)
    → hex_pair x y ≡ some b
    → b < 256
hex_pair-lt (some hi) (some lo) hx hy e = ground (arith, hx hi refl, hy lo refl)
hex_pair-lt (some hi) none hx hy e = cc
hex_pair-lt none y hx hy e = cc

decode_hex-encode_hex : (bz : Bytes) → AreBytes bz → decode_hex (encode_hex bz) ≡ some bz
unfolding decode_hex encode_hex
decode_hex-encode_hex [] h = refl
decode_hex-encode_hex (b ∷ bs) h =
    rw
      (
        hex_digit-hex_char (b / 16) (omega arith),
        hex_digit-hex_char (b % 16) (omega arith),
        decode_hex-encode_hex bs h.1,
      )
      (ap (λ (c : ℕ). some (c ∷ bs)) (omega arith))

cons_byte-AreBytes :
    (o : Option ℕ) (r : Option Bytes) {bz : Bytes}
    → ((b : ℕ) → o ≡ some b → b < 256)
    → ((bs : Bytes) → r ≡ some bs → AreBytes bs)
    → cons_byte o r ≡ some bz
    → AreBytes bz
cons_byte-AreBytes (some b) (some bs) ho hr e =
    subst AreBytes (some-injective _ _ e) (ho b refl, hr bs refl)
cons_byte-AreBytes (some b) none ho hr e = cc
cons_byte-AreBytes none r ho hr e = cc

decode_hex-AreBytes : (s : Bytes) (bz : Bytes) → decode_hex s ≡ some bz → AreBytes bz
unfolding decode_hex
decode_hex-AreBytes [] bz e = subst AreBytes (some-injective _ _ e) tt
decode_hex-AreBytes (x ∷ []) bz e = cc
decode_hex-AreBytes (x ∷ y ∷ rest) bz e =
    cons_byte-AreBytes (hex_pair (hex_digit x) (hex_digit y)) (decode_hex rest)
      (λ b. hex_pair-lt (hex_digit x) (hex_digit y) (λ v. hex_digit-lt x) (λ v. hex_digit-lt y))
      (decode_hex-AreBytes rest) e

pub from_hex-AreBytes : (s bz : Bytes) → from_hex s ≡ ok bz → AreBytes bz
unfolding from_hex
from_hex-AreBytes s bz e = decode_hex-AreBytes (trim_0x s) bz (ground arith)

hex_char-ne_x : (v : ℕ) → v < 16 → (hex_char v == b'x') ≡ false
unfolding hex_char
hex_char-ne_x v h = ground arith

trim_0x-encode_hex : (bz : Bytes) → AreBytes bz → trim_0x (encode_hex bz) ≡ encode_hex bz
unfolding trim_0x encode_hex
trim_0x-encode_hex [] h = refl
trim_0x-encode_hex (b ∷ bs) h = ground (arith, hex_char-ne_x (b % 16))

-- `fromHex` returns the bytes whose hexadecimal text it is given, with the prefix 0x or without it.
pub from_hex-encode_hex :
    (bz : Bytes)
    → AreBytes bz
    → (from_hex (encode_hex bz) ≡ ok bz) × (from_hex (b'0' ∷ b'x' ∷ encode_hex bz) ≡ ok bz)
unfolding from_hex
from_hex-encode_hex bz h = (
  rw (from_hex, trim_0x-encode_hex bz h, decode_hex-encode_hex bz h),
  unfold trim_0x in rw (from_hex, decode_hex-encode_hex bz h),
)

All-++ :
    {A : Type 0} (P : A → Type 0) (left right : List A)
    → All P right
    → All P left
    → All P (left ++ right)
All-++ P [] right rest first = rest
All-++ P (b ∷ left) right rest (here, first) = (here, All-++ P left right rest first)

All-replicate : {A : Type 0} (P : A → Type 0) (n : ℕ) (a : A) → P a → All P (replicate n a)
All-replicate P zero a h = tt
All-replicate P (suc n) a h = (h, All-replicate P n a h)

pub pad_to32-AreBytes : (bz : Bytes) → AreBytes bz → AreBytes (pad_to32 bz)
unfolding pad_to32
pad_to32-AreBytes bz h = elim (Bool-cases (length bz % word_size == 0)) [
  | inl e ↦ rw (e, pad_to32) h
  | inr e ↦
      rw (e, pad_to32)
        (All-++ (λ b. b < 256) bz (replicate (word_size - length bz % word_size) 0)
          (All-replicate (λ b. b < 256) (word_size - length bz % word_size) 0 (omega arith)) h)
]

pub length-pad_to32 :
    (bz : Bytes)
    → (length (pad_to32 bz) % word_size ≡ 0)
      × (length (pad_to32 bz) < length bz + word_size)
      × (length bz ≤ length (pad_to32 bz))
unfolding pad_to32
length-pad_to32 bz = ground (
  arith,
  length-append bz (replicate (word_size - length bz % word_size) 0),
  length-replicate (word_size - length bz % word_size) (let z : ℕ = 0 in z),
)

-- `padTo32` keeps the data as the head of its result, whose length is the least multiple of 32 that
-- is not below the length of the data.
pub pad_to32-extends :
    (bz : Bytes)
    → (take (length bz) (pad_to32 bz) ≡ bz)
      × (length (pad_to32 bz) % word_size ≡ 0)
      × (length (pad_to32 bz) < length bz + word_size)
      × (length bz ≤ length (pad_to32 bz))
pad_to32-extends bz =
    (prefix, (length-pad_to32 bz).0, (length-pad_to32 bz).1, (length-pad_to32 bz).2)
  where
    prefix : take (length bz) (pad_to32 bz) ≡ bz
    prefix = elim (Bool-cases (length bz % word_size == 0)) [
      | inl e ↦ unfold pad_to32 in rw (e, pad_to32) (take-length bz)
      | inr e ↦ unfold pad_to32 in rw (e, pad_to32) (take-append bz _)
    ]
