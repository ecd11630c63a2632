-- ===== src/Abi/Fits.antt =====
-- Which values a field may decode to, and how a decoding may end.
use gno_ibc_relayer_api.Prelude.{ℕ, ◌<◌, ◌^◌, ◌≡◌, refl, Bool, true, false, All, length}
use gno_ibc_relayer_api.Prelude.Strings.{Bytes}
use gno_ibc_relayer_api.Abi.Outcome.{Outcome, ok, err, panic, Error, ◌>>=◌, ◌>>◌, guard}
use gno_ibc_relayer_api.Abi.Schema.{
  WordType, uint8, uint32, uint64, uint256, bytes32, bool, address, Field, Fields, word, bytes,
  string, struct, array,
}
use gno_ibc_relayer_api.Abi.Words.{
  Value, Values, u8, u32, u64, big, fixed32, byte_slice, text, truth, tuple, nil, cons, Decoder,
  read_word, max_alloc,
}

abbrev pub AreBytes : Bytes → Type 0
AreBytes = All λ b. b < 256

abbrev pub WordFits : WordType → Value → Type 0
WordFits uint8 (u8 n) = n < 256
WordFits uint32 (u32 n) = n < 2 ^ 32
WordFits uint64 (u64 n) = n < 2 ^ 64
WordFits uint256 (big n) = n < 2 ^ 256
WordFits bytes32 (fixed32 b) = length b ≡ 32
WordFits bool (truth b) = Unit
WordFits address (byte_slice b) = length b ≡ 20
WordFits _ _ = ⊥

abbrev pub AllValues : (Value → Type 0) → Values → Type 0
AllValues P nil = Unit
AllValues P (cons v vs) = P v × AllValues P vs

-- The Go type and the range of the value of a field.
abbrev mutual
  pub Fits : Field → Value → Type 0
  Fits (word t) v = WordFits t v
  Fits bytes (byte_slice b) = Unit
  Fits string (text b) = Unit
  Fits (struct fs) (tuple vs) = FitsAll fs vs
  Fits (array e) (tuple vs) = AllValues (λ v. Fits e v) vs
  Fits _ _ = ⊥

  pub FitsAll : Fields → Values → Type 0
  FitsAll Fields.nil nil = Unit
  FitsAll (Fields.cons f fs) (cons v vs) = Fits f v × FitsAll fs vs
  FitsAll _ _ = ⊥

-- The data holds, at some position, a word that is no possible length of a slice.
abbrev pub IsOversized : Decoder → Type 0
IsOversized d = (p : ℕ) × (v : ℕ) × (read_word d p ≡ ok v) × (max_alloc < v)

-- A value meets `P`, an error is allowed, and a panic is due to an oversized word.
abbrev pub Ends : {A : Type 0} → Decoder → (A → Type 0) → Outcome A → Type 0
Ends d P (ok a) = P a
Ends d P (err e) = Unit
Ends d P panic = IsOversized d

module _ {A B : Type 0} (d : Decoder) (P : A → Type 0) (Q : B → Type 0) where
  pub Ends-bind :
      (m : Outcome A) (f : A → Outcome B)
      → Ends d P m
      → ((a : A) → m ≡ ok a → P a → Ends d Q (f a))
      → Ends d Q (m >>= f)
  Ends-bind (ok a) f h k = k a refl h
  Ends-bind (err e) f h k = tt
  Ends-bind panic f h k = h

module _ {B : Type 0} (d : Decoder) (Q : B → Type 0) where
  pub Ends-guard :
      (b : Bool) (e : Error) (k : Outcome B) → (b ≡ true → Ends d Q k) → Ends d Q (guard b e >> k)
  Ends-guard true e k h = h refl
  Ends-guard false e k h = tt
