-- ===== src/Prelude/Membership.antt =====
-- Membership in a list, and what it says of `All`, `any` and `keep`.
use mathlib.Core.Path.{◌≡◌, refl, sym, subst}
use mathlib.Core.Logic.{◌↔◌, ◌⊎◌, inl, inr}
use mathlib.Core.Bool.{Bool, true, false}
use mathlib.Core.List.{List, [], ◌∷◌}
use native.Mathlib.Omega.{arith}
use gno_ibc_relayer_api.Prelude.Tests.{Bool-cases}
use gno_ibc_relayer_api.Prelude.Lists.{All, any, keep, length}

pub Bool-apart : (b : Bool) → b ≡ true → b ≡ false → ⊥
Bool-apart b h k = ground arith

module _ {A : Type 0} where
  abbrev pub In : A → List A → Type 0
  In x [] = ⊥
  In x (y ∷ ys) = (x ≡ y) ⊎ In x ys

  pub All-In : (P : A → Type 0) (xs : List A) (x : A) → All P xs → In x xs → P x
  All-In P [] x h i = absurd i
  All-In P (y ∷ xs) x h (inl e) = subst P (sym e) h.0
  All-In P (y ∷ xs) x h (inr i) = All-In P xs x h.1 i

  pub In-All : (P : A → Type 0) (xs : List A) → ((x : A) → In x xs → P x) → All P xs
  In-All P [] h = tt
  In-All P (x ∷ xs) h = (h x (inl refl), In-All P xs (λ y i. h y (inr i)))

  pub In-keep : (p : A → Bool) (xs : List A) (x : A) → In x (keep p xs) ↔ (In x xs × (p x ≡ true))
  unfolding keep
  In-keep p [] x = (λ i. absurd i, λ h. h.0)
  In-keep p (y ∷ xs) x = elim (Bool-cases (p y)) [
    | inl e ↦
        rw (e, In)
          (
            λ i. elim i [
              | inl same ↦ (inl same, subst (λ z. p z ≡ true) (sym same) e)
              | inr j ↦ let (k, h) = (In-keep p xs x).0 j in (inr k, h)
            ],
            λ h. elim h.0 [ inl same ↦ inl same | inr j ↦ inr ((In-keep p xs x).1 (j, h.1)) ],
          )
    | inr e ↦
        rw (e, In)
          (
            λ i. let (k, h) = (In-keep p xs x).0 i in (inr k, h),
            λ h. elim h.0 [
              | inl same ↦ absurd (Bool-apart (p x) h.1 (subst (λ z. p z ≡ false) (sym same) e))
              | inr j ↦ (In-keep p xs x).1 (j, h.1)
            ],
          )
  ]

  pub any-none : (p : A → Bool) (xs : List A) → (any p xs ≡ false) ↔ All (λ x. p x ≡ false) xs
  unfolding any
  any-none p [] = (λ e. tt, λ h. refl)
  any-none p (x ∷ xs) = ground (arith, any-none p xs)

  pub length-keep_none :
      (p : A → Bool) (xs : List A) → (length (keep p xs) ≡ 0) ↔ All (λ x. p x ≡ false) xs
  unfolding keep
  length-keep_none p [] = (λ e. tt, λ h. refl)
  length-keep_none p (x ∷ xs) = ground (arith, length-keep_none p xs)
