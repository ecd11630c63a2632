-- ===== src/Db/Sample.antt =====
-- A PostgreSQL for the tests: the first row is picked, and rows of one time keep their order.
use mathlib.Core.List.{Perm}
use mathlib.Core.List.Perm
use gno_ibc_relayer_api.Prelude.{
  ◌≡◌, refl, inl, inr, Bool, Option, none, some, List, [], ◌∷◌, arith, leb, if◌then◌else◌,
  Bool-cases,
}
use gno_ibc_relayer_api.Db.Record.{BridgeRecord}
use gno_ibc_relayer_api.Db.Table.{Postgres, IsOrdered}
use gno_ibc_relayer_api.Prelude.Membership.{In}

abbrev pub first : List BridgeRecord → Option BridgeRecord
first [] = none
first (r ∷ rs) = some r

pub first-In : (rows : List BridgeRecord) (r : BridgeRecord) → first rows ≡ some r → In r rows
first-In [] r e = cc
first-In (s ∷ rs) r e = inl (ground arith)

pub first-none : (rows : List BridgeRecord) → first rows ≡ none → rows ≡ []
first-none [] e = refl
first-none (s ∷ rs) e = cc

abbrev before : Bool → BridgeRecord → BridgeRecord → Bool
before asc r s = if asc then leb r.created_at s.created_at else leb s.created_at r.created_at

unfoldable pub place : Bool → BridgeRecord → List BridgeRecord → List BridgeRecord
place asc r [] = r ∷ []
place asc r (s ∷ rs) = if before asc r s then r ∷ s ∷ rs else s ∷ place asc r rs

unfoldable pub arrange : Bool → List BridgeRecord → List BridgeRecord
unfolding place
arrange asc [] = []
arrange asc (r ∷ rs) = place asc r (arrange asc rs)

place-IsOrdered :
    (asc : Bool) (r : BridgeRecord) (rows : List BridgeRecord)
    → IsOrdered asc rows
    → IsOrdered asc (place asc r rows)
unfolding place
place-IsOrdered asc r [] h = tt
place-IsOrdered asc r (s ∷ []) h = ground arith
place-IsOrdered asc r (s ∷ t ∷ rs) h = ground (arith, place-IsOrdered asc r (t ∷ rs) h.1)

pub arrange-IsOrdered : (asc : Bool) (rows : List BridgeRecord) → IsOrdered asc (arrange asc rows)
unfolding arrange
arrange-IsOrdered asc [] = tt
arrange-IsOrdered asc (r ∷ rs) = place-IsOrdered asc r (arrange asc rs) (arrange-IsOrdered asc rs)

place-perm :
    (asc : Bool) (r : BridgeRecord) (rows : List BridgeRecord) → Perm (place asc r rows) (r ∷ rows)
unfolding place
place-perm asc r [] = Perm.refl (r ∷ [])
place-perm asc r (s ∷ rs) = elim (Bool-cases (before asc r s)) [
  | inl e ↦ rw e (Perm.refl (r ∷ s ∷ rs))
  | inr e ↦ rw e (Perm.trans (Perm.cons s (place-perm asc r rs)) (Perm.swap r s rs))
]

pub arrange-perm : (asc : Bool) (rows : List BridgeRecord) → Perm (arrange asc rows) rows
unfolding arrange
arrange-perm asc [] = Perm.refl []
arrange-perm asc (r ∷ rs) =
    Perm.trans (place-perm asc r (arrange asc rs)) (Perm.cons r (arrange-perm asc rs))

abbrev pub sample : Postgres
sample = record {
  pick = first;
  pick_some = first-In;
  pick_none = first-none;
  order_by = arrange;
  order_perm = arrange-perm;
  order_ordered = arrange-IsOrdered;
}
