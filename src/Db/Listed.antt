-- ===== src/Db/Listed.antt =====
-- internal/db/bridge.go: what an ordered and limited SELECT keeps of the rows.
use mathlib.Core.List.{Perm, Permᴰ}
use mathlib.Core.List.Permᴰ.{nil, cons, swap, trans}
use mathlib.Core.Logic.{∥∥₁_elim}
use native.Mathlib.Bridge.{le_prop}
use gno_ibc_relayer_api.Prelude.{
  ℕ, zero, suc, drop, ◌||◌, ◌+◌, ◌≤◌, ◌≡◌, sym, subst, Bool, true, false, List, [], ◌∷◌, arith, ◌<◌,
  All, keep, length, take, All-take, All-drop, length-take,
}
use gno_ibc_relayer_api.Prelude.Int.{ℤ, pos, negsuc}
use gno_ibc_relayer_api.Prelude.Strings.{Bytes, codes, str_eq, is_empty}
use gno_ibc_relayer_api.Db.Record.{
  BridgeRecord, status_detected, status_processing, status_done, status_failed,
}
use gno_ibc_relayer_api.Db.Table.{Postgres, IsOrdered}
use gno_ibc_relayer_api.Db.World.{World, ok, Result}
use gno_ibc_relayer_api.Db.Statements.{query_cases}
use gno_ibc_relayer_api.Db.Bridge.{
  StatusSummary, ListFilter, list, listed, window, count_status, count_recent_by_status,
}

All-IsProp :
    {A : Type 0} (P : A → Type 0) → ((a : A) → IsProp (P a)) → (xs : List A) → IsProp (All P xs)
All-IsProp P prop [] = hlevel
All-IsProp P prop (x ∷ xs) = λ h k i. (prop x h.0 k.0 i, All-IsProp P prop xs h.1 k.1 i)

All-Permᴰ : {A : Type 0} (P : A → Type 0) {xs ys : List A} → Permᴰ xs ys → All P ys → All P xs
All-Permᴰ P nil h = h
All-Permᴰ P (cons same p) h = (subst P (sym same) h.0, All-Permᴰ P p h.1)
All-Permᴰ P (swap one two) h = (subst P (sym one) h.1.0, (subst P (sym two) h.0, h.1.1))
All-Permᴰ P (trans p q) h = All-Permᴰ P p (All-Permᴰ P q h)

pub All-Perm :
    {A : Type 0} (P : A → Type 0)
    → ((a : A) → IsProp (P a))
    → (xs ys : List A) → Perm xs ys
    → All P ys
    → All P xs
All-Perm P prop xs ys p h = ∥∥₁_elim p (All-IsProp P prop xs) (λ q. All-Permᴰ P q h)

pub All-keep : {A : Type 0} (p : A → Bool) (xs : List A) → All (λ x. p x ≡ true) (keep p xs)
unfolding keep
All-keep p [] = tt
All-keep p (x ∷ xs) = ground (arith, All-keep p xs)

-- Each row of a status below 4 is counted once.
pub count_status-sum :
    (rows : List BridgeRecord)
    → All (λ r. r.status < 4) rows
    → length rows ≡ (
        count_status status_detected rows
        + count_status status_processing rows
        + (count_status status_done rows + count_status status_failed rows))
unfolding count_status keep
count_status-sum [] h = omega arith
count_status-sum (r ∷ rows) h = ground (arith, count_status-sum rows h.1)

-- Of a table whose statuses are below 4, `CountRecentByStatus` counts at most as many rows as it is
-- asked for, and the counts by status add up to the total.
pub count_recent_by_status-total :
    (pg : Postgres) (limit : ℕ) (w w' : World) (s : StatusSummary)
    → All (λ r. r.status < 4) w.transfers
    → count_recent_by_status pg limit w ≡ (ok s, w')
    → (s.total ≤ limit) × (s.total ≡ s.detected + s.processing + (s.succeeded + s.failed))
unfolding count_recent_by_status
count_recent_by_status-total pg limit w w' s statuses =
    query_cases
      (λ x.
        x ≡ (ok s, w')
        → (s.total ≤ limit) × (s.total ≡ s.detected + s.processing + (s.succeeded + s.failed)))
      _ w (λ l e h. ground arith)
      (λ l h. ground (
        arith,
        length-take limit (pg.order_by false w.transfers),
        count_status-sum (take limit (pg.order_by false w.transfers)) (
            All-take _ limit (pg.order_by false w.transfers)
              (All-Perm _ (λ r. le_prop) _ w.transfers (pg.order_perm false w.transfers) statuses)),
      ))

IsOrdered-tail :
    (asc : Bool) (r : BridgeRecord) (rows : List BridgeRecord)
    → IsOrdered asc (r ∷ rows)
    → IsOrdered asc rows
IsOrdered-tail asc r [] h = tt
IsOrdered-tail asc r (s ∷ rows) h = h.1

IsOrdered-drop :
    (asc : Bool) (n : ℕ) (rows : List BridgeRecord)
    → IsOrdered asc rows
    → IsOrdered asc (drop n rows)
IsOrdered-drop asc zero rows h = h
IsOrdered-drop asc (suc n) [] h = h
IsOrdered-drop asc (suc n) (r ∷ rows) h = IsOrdered-drop asc n rows (IsOrdered-tail asc r rows h)

IsOrdered-take :
    (asc : Bool) (n : ℕ) (rows : List BridgeRecord)
    → IsOrdered asc rows
    → IsOrdered asc (take n rows)
IsOrdered-take asc zero rows h = tt
IsOrdered-take asc (suc n) [] h = tt
IsOrdered-take asc (suc zero) (r ∷ rows) h = tt
IsOrdered-take asc (suc (suc n)) (r ∷ []) h = tt
IsOrdered-take asc (suc (suc n)) (r ∷ s ∷ rows) h = (h.0, IsOrdered-take asc (suc n) (s ∷ rows) h.1)

ok_value :
    {A : Type 0} {a b : A} {v w : World} → ◌≡◌ {A = Result A × World} (ok a, v) (ok b, w) → a ≡ b
ok_value h = cc

-- The row has the address as its sender or its receiver.
abbrev pub Involves : Bytes → BridgeRecord → Type 0
Involves address r = (str_eq r.from_address address || str_eq r.to_address address) ≡ true

listed-Involves :
    (pg : Postgres) (f : ListFilter) (rows : List BridgeRecord)
    → is_empty f.address ≡ false
    → All (Involves f.address) (listed pg f rows)
unfolding listed
listed-Involves pg f rows e =
    rw (listed, e)
      (All-Perm (Involves f.address) (λ r. hlevel) _ _ (pg.order_perm _ _) (All-keep _ rows))

listed-IsOrdered :
    (pg : Postgres) (f : ListFilter) (rows : List BridgeRecord)
    → IsOrdered (str_eq f.order (codes "asc")) (listed pg f rows)
unfolding listed
listed-IsOrdered pg f rows = pg.order_ordered _ _

-- The number is at most the integer.
abbrev pub IsAtMost : ℕ → ℤ → Type 0
IsAtMost n (pos limit) = n ≤ limit
IsAtMost n (negsuc limit) = ⊥

-- At most as many rows as the limit, each with the address as sender or receiver, and in the order of
-- creation that is asked for.
abbrev pub IsPage : ListFilter → List BridgeRecord → Type 0
IsPage f rows =
    IsAtMost (length rows) f.limit
    × All (Involves f.address) rows
    × IsOrdered (str_eq f.order (codes "asc")) rows

window-IsPage :
    (pg : Postgres) (f : ListFilter) (rows : List BridgeRecord) (limit offset : ℕ)
    → is_empty f.address ≡ false
    → (length (take limit (drop offset (listed pg f rows))) ≤ limit)
      × All (Involves f.address) (take limit (drop offset (listed pg f rows)))
      × IsOrdered (str_eq f.order (codes "asc")) (take limit (drop offset (listed pg f rows)))
window-IsPage pg f rows limit offset e = (
  omega (arith, length-take limit (drop offset (listed pg f rows))),
  All-take _ limit _ (All-drop _ offset _ (listed-Involves pg f rows e)),
  IsOrdered-take _ limit _ (IsOrdered-drop _ offset _ (listed-IsOrdered pg f rows)),
)

-- What `List` returns for a filter with an address is at most as many rows as the limit, each with the
-- address as sender or receiver, and in the order of creation that is asked for.
pub list-IsPage :
    (pg : Postgres) (f : ListFilter) (w w' : World) (rows : List BridgeRecord)
    → is_empty f.address ≡ false
    → list pg f w ≡ (ok rows, w')
    → IsPage f rows
unfolding list
list-IsPage pg f w w' rows e = by_window f.limit f.offset
  where
    by_window :
        (limit offset : ℤ)
        → window limit offset (λ v. listed pg f v.transfers) w ≡ (ok rows, w')
        → IsAtMost (length rows) limit
          × All (Involves f.address) rows
          × IsOrdered (str_eq f.order (codes "asc")) rows
    by_window (negsuc l) offset = λ h. ground arith
    by_window (pos l) (negsuc n) = λ h. ground arith
    by_window (pos l) (pos n) =
        query_cases
          (λ x.
            x ≡ (ok rows, w')
            → (length rows ≤ l)
              × All (Involves f.address) rows
              × IsOrdered (str_eq f.order (codes "asc")) rows)
          _ w (λ fs er h. ground arith)
          (λ fs h.
            subst
              (λ rs.
                (length rs ≤ l)
                × All (Involves f.address) rs
                × IsOrdered (str_eq f.order (codes "asc")) rs)
              (ok_value h) (window-IsPage pg f w.transfers l n e))
