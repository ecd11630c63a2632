-- ===== src/Db/Advance.antt =====
-- internal/db/bridge.go: what the writes of `BridgeDB` may do to a row, over any history.
use gno_ibc_relayer_api.Prelude.{
  ℕ, ◌≤◌, ◌<◌, ◌≡◌, refl, ◌⊎◌, inl, inr, Bool, true, Option, none, some, List, [], ◌∷◌, ◌++◌, arith,
  ◌==◌, if◌then◌else◌, any, Bool-cases,
}
use gno_ibc_relayer_api.Db.Record.{BridgeRecord, status_done}
use gno_ibc_relayer_api.Db.World.{World}
use gno_ibc_relayer_api.Db.Table.{update, insert_row}
use gno_ibc_relayer_api.Db.Statements.{statement_cases}
use gno_ibc_relayer_api.Db.Bridge.{exec, exec_update}

-- The row of a primary key.
unfoldable pub find_row : ℕ → List BridgeRecord → Option BridgeRecord
find_row i [] = none
find_row i (r ∷ rs) = if r.id == i then some r else find_row i rs

-- A row keeps all but its status, done_at, err_msg and tx_in; its status does not fall; once it is done
-- or failed, status, done_at and err_msg stay; once tx_in is set, it stays.
pub record Advance (r r' : BridgeRecord) : Type 0 where
  pub same : r' ≡ record r {
    status = r'.status;
    done_at = r'.done_at;
    err_msg = r'.err_msg;
    tx_in = r'.tx_in;
  }
  pub forward : r.status ≤ r'.status
  pub terminal :
      (r.status < status_done)
      ⊎ ((r'.status ≡ r.status) × (r'.done_at ≡ r.done_at) × (r'.err_msg ≡ r.err_msg))
  pub tx_in_once : (r.tx_in ≡ none) ⊎ (r'.tx_in ≡ r.tx_in)

pub Advance-refl : (r : BridgeRecord) → Advance r r
Advance-refl r = record {
  same = refl;
  forward = omega arith;
  terminal = inr (refl, refl, refl);
  tx_in_once = inr refl;
}

-- A row that is there stays there, and advances.
abbrev pub AdvanceRow : Option BridgeRecord → Option BridgeRecord → Type 0
AdvanceRow none _ = Unit
AdvanceRow (some r) none = ⊥
AdvanceRow (some r) (some r') = Advance r r'

pub Advance-trans : {r s t : BridgeRecord} → Advance r s → Advance s t → Advance r t
Advance-trans {r} {s} {t} a b = record {
  same = ground arith;
  forward = omega arith;
  terminal = ground arith;
  tx_in_once = ground arith;
}

AdvanceRow-refl : (o : Option BridgeRecord) → AdvanceRow o o
AdvanceRow-refl none = tt
AdvanceRow-refl (some r) = Advance-refl r

pub AdvanceRow-trans :
    (a b c : Option BridgeRecord) → AdvanceRow a b → AdvanceRow b c → AdvanceRow a c
AdvanceRow-trans none b c h k = tt
AdvanceRow-trans (some r) none c h k = absurd h
AdvanceRow-trans (some r) (some s) none h k = absurd k
AdvanceRow-trans (some r) (some s) (some t) h k = Advance-trans h k

-- An UPDATE that advances the rows that it matches, and keeps their ids.
pub update-AdvanceRow :
    (p : BridgeRecord → Bool) (f : BridgeRecord → BridgeRecord)
    → ((r : BridgeRecord) → (f r).id ≡ r.id)
    → ((r : BridgeRecord) → p r ≡ true → Advance r (f r))
    → (i : ℕ) (rows : List BridgeRecord)
    → AdvanceRow (find_row i rows) (find_row i (update p f rows))
unfolding find_row update
update-AdvanceRow p f hid adv i [] = tt
update-AdvanceRow p f hid adv i (r ∷ rs) =
    ground (arith, hid r, adv r, Advance-refl r, update-AdvanceRow p f hid adv i rs)

append-AdvanceRow :
    (t : BridgeRecord) (i : ℕ) (rows : List BridgeRecord)
    → AdvanceRow (find_row i rows) (find_row i (rows ++ t ∷ []))
unfolding find_row
append-AdvanceRow t i [] = tt
append-AdvanceRow t i (r ∷ rs) = ground (arith, Advance-refl r, append-AdvanceRow t i rs)

pub insert_row-AdvanceRow :
    (t : BridgeRecord) (i : ℕ) (rows : List BridgeRecord)
    → AdvanceRow (find_row i rows) (find_row i (insert_row t rows))
unfolding insert_row
insert_row-AdvanceRow t i rows = elim (Bool-cases (any (λ r. r.id == t.id) rows)) [
  | inl there ↦ rw (there, insert_row) (AdvanceRow-refl (find_row i rows))
  | inr absent ↦ rw (absent, insert_row) (append-AdvanceRow t i rows)
]

abbrev pub Advances : World → World → Type 0
Advances w w' = (i : ℕ) → AdvanceRow (find_row i w.transfers) (find_row i w'.transfers)

pub Advances-refl : (w : World) → Advances w w
Advances-refl w i = AdvanceRow-refl (find_row i w.transfers)

pub Advances-trans : (u v w : World) → Advances u v → Advances v w → Advances u w
Advances-trans u v w h k i = AdvanceRow-trans _ _ _ (h i) (k i)

pub exec-Advances :
    (f : List BridgeRecord → List BridgeRecord)
    → ((i : ℕ) (rows : List BridgeRecord) → AdvanceRow (find_row i rows) (find_row i (f rows)))
    → (w : World) → Advances w (exec f w).1
unfolding exec
exec-Advances f h w =
    statement_cases (λ v. Advances w v) _ w (λ l. Advances-refl w) (λ l i. h i w.transfers)

pub exec_update-Advances :
    (p : BridgeRecord → Bool) (f : BridgeRecord → BridgeRecord)
    → ((r : BridgeRecord) → (f r).id ≡ r.id)
    → ((r : BridgeRecord) → p r ≡ true → Advance r (f r))
    → (w : World) → Advances w (exec_update p f w).1
unfolding exec_update
exec_update-Advances p f hid adv w =
    statement_cases (λ v. Advances w v) _ w (λ l. Advances-refl w)
      (λ l i. update-AdvanceRow p f hid adv i w.transfers)
