-- ===== src/Setup/Functions.antt =====
-- cmd/setup-trigger/main.go: the functions and triggers of a catalog after statements.
use gno_ibc_relayer_api.Prelude.{
  Bool, true, false, ◌&&◌, ◌||◌, none, some, List, [], ◌∷◌, ◌++◌, ◌≡◌, ◌≢◌, refl, sym, ap, any,
  arith, Bool-cases, inl, inr,
}
use gno_ibc_relayer_api.Prelude.Strings.{Bytes, str_eq, str_eq_refl, str_eq_iff, str_eq→eq}
use gno_ibc_relayer_api.Setup.Catalog.{Trigger, put, source, has_trigger}

pub put-put :
    (name body : Bytes) (fs : List (Bytes × Bytes))
    → put name body (put name body fs) ≡ put name body fs
unfolding put
put-put name body [] = ground (arith, str_eq_refl name)
put-put name body ((n, b) ∷ fs) = ground (arith, str_eq_refl name, put-put name body fs)

pub source-put :
    (name body : Bytes) (fs : List (Bytes × Bytes)) → source name (put name body fs) ≡ some body
unfolding put source
source-put name body [] = ground (arith, str_eq_refl name)
source-put name body ((n, b) ∷ fs) = ground (arith, str_eq_refl name, source-put name body fs)

pub apart : {A : Type 0} (a : A) → some a ≡ none → ⊥
apart a e = cc

pub put-present :
    (name body : Bytes) (fs : List (Bytes × Bytes))
    → source name fs ≡ some body
    → put name body fs ≡ fs
unfolding put source
put-present name body [] h = absurd (apart body (sym h))
put-present name body ((n, b) ∷ fs) h = elim (Bool-cases (str_eq n name)) [
  | inl e ↦ rw (str_eq→eq n name e, found e, str_eq_refl name) refl
  | inr e ↦ rw e (ap (λ rest. (n, b) ∷ rest) (put-present name body fs (later e)))
]
  where
    found : str_eq n name ≡ true → body ≡ b
    found e = ground (arith, h, e)

    later : str_eq n name ≡ false → source name fs ≡ some body
    later e = ground (arith, h, e)

any-append :
    {A : Type 0} (p : A → Bool) (xs : List A) (x : A) → any p (xs ++ x ∷ []) ≡ (any p xs || p x)
unfolding any
any-append p [] x = ground arith
any-append p (y ∷ xs) x = ground (arith, any-append p xs x)

pub has_trigger-last :
    (ts : List Trigger) (t : Trigger) → has_trigger t.table t.name (ts ++ t ∷ []) ≡ true
unfolding has_trigger
has_trigger-last ts t = ground (
  arith,
  any-append (λ u. str_eq u.table t.table && str_eq u.name t.name) ts t,
  str_eq_refl t.table,
  str_eq_refl t.name,
)

pub has_trigger-kept :
    (table name : Bytes) (ts : List Trigger) (t : Trigger)
    → has_trigger table name ts ≡ true
    → has_trigger table name (ts ++ t ∷ []) ≡ true
unfolding has_trigger
has_trigger-kept table name ts t h =
    ground (arith, any-append (λ u. str_eq u.table table && str_eq u.name name) ts t)

pub source-put_other :
    (name other body : Bytes) (fs : List (Bytes × Bytes))
    → other ≢ name
    → source name (put other body fs) ≡ source name fs
unfolding put source
source-put_other name other body [] h = ground (arith, str_eq_iff other name)
source-put_other name other body ((n, b) ∷ fs) h = ground (
  arith,
  str_eq_iff other name,
  str_eq_iff n name,
  str_eq_iff n other,
  source-put_other name other body fs h,
)
