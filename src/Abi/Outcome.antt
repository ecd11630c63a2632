-- ===== src/Abi/Outcome.antt =====
-- What a call of internal/tools/ethabi ends in: a value, an error, or a run-time panic.
-- The errors of types.go come first; the others are those that zkgm.go makes with fmt.Errorf,
-- without their texts.
use gno_ibc_relayer_api.Prelude.{
  ℕ, ◌-◌, ◌≡◌, refl, ◌&&◌, Bool, true, false, leb, if◌then◌else◌, length, take, drop,
}
use gno_ibc_relayer_api.Prelude.Strings.{Bytes}

pub data Error : Type 0 where
  unsupported_type invalid_schema invalid_data depth_limit : Error
  hex_decode field_count type_mismatch not_token_order unknown_version : Error

pub data Outcome {ℓ} (A : Type ℓ) : Type ℓ where
  ok : A → Outcome A
  err : Error → Outcome A
  panic : Outcome A

infixl 5 ◌>>=◌ ◌>>◌
abbrev pub ◌>>=◌ {ℓ κ} : {A : Type ℓ} {B : Type κ} → Outcome A → (A → Outcome B) → Outcome B
ok a >>= f = f a
err e >>= f = err e
panic >>= f = panic

abbrev pub ◌>>◌ {ℓ} : {B : Type ℓ} → Outcome (Unit {0}) → Outcome B → Outcome B
m >> k = m >>= λ _. k

-- `if !b { return nil, e }`
abbrev pub guard : Bool → Error → Outcome (Unit {0})
guard true e = ok tt
guard false e = err e

-- The slice expression `data[lo:hi]`, which panics out of bounds.
unfoldable pub slice : Bytes → ℕ → ℕ → Outcome Bytes
slice bz lo hi = if leb lo hi && leb hi (length bz) then ok (take (hi - lo) (drop lo bz)) else panic

pub >>=-eq-ok {ℓ κ} :
    {A : Type ℓ} {B : Type κ} (first : Outcome A) (next : A → Outcome B) {last : B}
    → (first >>= next) ≡ ok last
    → (x : A) × (first ≡ ok x) × (next x ≡ ok last)
>>=-eq-ok panic next returns = cc
>>=-eq-ok (ok x) next returns = (x, refl, returns)
>>=-eq-ok (err e) next returns = cc

pub guard-eq-ok : (b : Bool) (e : Error) {u : Unit {0}} → guard b e ≡ ok u → b ≡ true
guard-eq-ok true e h = refl
guard-eq-ok false e h = cc
