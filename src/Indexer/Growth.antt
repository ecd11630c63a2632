-- ===== src/Indexer/Growth.antt =====
-- internal/indexer: each statement that the indexer sends only advances the bridges.
use gno_ibc_relayer_api.Prelude.{
  ℕ, ◌≡◌, refl, sym, ap, subst, ◌∙◌, Bool, true, false, ◌&&◌, Option, none, some, List, [], ◌∷◌,
  ◌↔◌, ◌≢◌, ltb, keep, All, arith, Bool-cases, inl, inr,
}
use gno_ibc_relayer_api.Prelude.Membership.{Bool-apart}
use gno_ibc_relayer_api.Prelude.Strings.{Bytes, str_eq, is_empty}
use gno_ibc_relayer_api.Db.Record.{BridgeRecord, status_detected, status_priority}
use gno_ibc_relayer_api.Db.World.{World, ok, query, statement}
use gno_ibc_relayer_api.Db.Trees.{
  Tree, ret, interp, bind_tree, statement_tree, interp-statement, select, update_rows, insert_rows,
  upsert, IsSql,
}
use gno_ibc_relayer_api.Db.Table.{Postgres, update, insert_row}
use gno_ibc_relayer_api.Db.Bridge.{
  mark_processing, mark_done, mark_failed, set_tx_in, set_cursor, insert, insert_or_advance,
  new_row, exec, exec_update, is_unset,
}
use gno_ibc_relayer_api.Db.Writes.{
  mark_processing-Advances, mark_done-Advances, mark_failed-Advances, set_tx_in-Advances,
}
use gno_ibc_relayer_api.Db.Advance.{Advances, insert_row-AdvanceRow}
use gno_ibc_relayer_api.Db.Unique.{IsTable, insert_row-IsTable, update-IsTable, IsFree, keep-IsFree}
use gno_ibc_relayer_api.Indexer.Effects.{
  keys_of, keys, Effect, Good, Grows, Effect-refl, Grows-pure, Grows-raise, Grows-panic,
  Grows-attempt, Grows-if, Grows-statement, Grows-query, Grows-bind, bind_tree-runs,
}

keys_of-update :
    (p : BridgeRecord → Bool) (f : BridgeRecord → BridgeRecord)
    → ((r : BridgeRecord) → (f r).id ≡ r.id)
    → ((r : BridgeRecord) → (f r).packet_hash ≡ r.packet_hash)
    → (rows : List BridgeRecord) → keys_of (update p f rows) ≡ keys_of rows
unfolding update
keys_of-update p f ids hashes [] = refl
keys_of-update p f ids hashes (r ∷ rows) = elim (Bool-cases (p r)) [
  | inl e ↦ rw (update, e, ids r, hashes r, keys_of-update p f ids hashes rows) refl
  | inr e ↦ rw (update, e, keys_of-update p f ids hashes rows) refl
]

-- An UPDATE that advances the rows and keeps their ids and hashes.
pub update-Effect :
    (b : Bool) (p : BridgeRecord → Bool) (f : BridgeRecord → BridgeRecord)
    → ((r : BridgeRecord) → (f r).id ≡ r.id)
    → ((r : BridgeRecord) → (f r).packet_hash ≡ r.packet_hash)
    → (w v : World) → v.transfers ≡ update p f w.transfers
    → Advances w v
    → Effect b w v
update-Effect b p f ids hashes w v e advances = record {
  at = advances;
  table = λ t. subst IsTable (sym e) (update-IsTable p f ids hashes w.transfers t);
  kept = λ _. ap keys_of e ∙ keys_of-update p f ids hashes w.transfers;
}

module _ {b : Bool} where
  unfoldable pub Grows-mark_processing : (ids : List ℕ) → Grows b (mark_processing ids)
  unfolding mark_processing exec statement
  Grows-mark_processing ids = Grows-statement _ (update_rows _ _) λ w.
      update-Effect b _ _ (λ r. refl) (λ r. refl) w _ refl
        (mark_processing-Advances ids (record w { faults = [] }))

  pub Grows-mark_done : (i t : ℕ) (tx : Bytes) → Grows b (mark_done i t tx)
  unfolding mark_done exec_update statement
  Grows-mark_done i t tx = Grows-statement _ (update_rows _ _) λ w.
      update-Effect b _ _ (λ r. refl) (λ r. refl) w _ refl
        (mark_done-Advances i t tx (record w { faults = [] }))

  pub Grows-mark_failed : (i : ℕ) (e tx : Bytes) → Grows b (mark_failed i e tx)
  unfolding mark_failed exec_update statement
  Grows-mark_failed i e tx = Grows-statement _ (update_rows _ _) λ w.
      update-Effect b _ _ (λ r. refl) (λ r. refl) w _ refl
        (mark_failed-Advances i e tx (record w { faults = [] }))

  pub Grows-set_tx_in : (h tx : Bytes) → Grows b (set_tx_in h tx)
  unfolding set_tx_in exec statement
  Grows-set_tx_in h tx = elim (Bool-cases (is_empty tx)) [
    | inl e ↦ rw (set_tx_in, e) (Grows-pure tt)
    | inr e ↦
        rw (set_tx_in, e)
          (Grows-statement _ (update_rows _ _) λ w.
            update-Effect b (λ r. str_eq r.packet_hash h && is_unset r.tx_in)
              (λ r. record r { tx_in = some tx }) (λ r. refl) (λ r. refl) w _ refl
              (rw (set_tx_in, e) at (set_tx_in-Advances h tx (record w { faults = [] }))))
  ]

  pub Grows-set_cursor : (n : Bytes) (i : ℕ) → Grows b (set_cursor n i)
  unfolding set_cursor
  Grows-set_cursor n i = Grows-statement _ (upsert n i) (λ w. Effect-refl b w _ refl)

-- A packet hash that is free stays so while the keys stay.
All-keys :
    (h : Bytes) (rows : List BridgeRecord)
    → IsFree (λ r. r.packet_hash) h rows ↔ All (λ k. k.1 ≢ h) (keys_of rows)
All-keys h [] = (λ f. f, λ f. f)
All-keys h (r ∷ rows) = (λ f. (f.0, (All-keys h rows).0 f.1), λ f. (f.0, (All-keys h rows).1 f.1))

keys_of-IsFree :
    (h : Bytes) (rows others : List BridgeRecord)
    → keys_of others ≡ keys_of rows
    → IsFree (λ r. r.packet_hash) h rows
    → IsFree (λ r. r.packet_hash) h others
keys_of-IsFree h rows others e free =
    (All-keys h others).1 (subst (All (λ k. k.1 ≢ h)) (sym e) ((All-keys h rows).0 free))

priority-detected : (s : ℕ) → ltb (status_priority status_detected) (status_priority s) ≡ false
unfolding status_priority
priority-detected s = ground arith

-- `Insert` of a detected bridge, after its SELECT. A bridge that is there is not touched.
module _ (t : BridgeRecord) where
  insert_tree : Option BridgeRecord → Tree (Unit {0})
  insert_tree none =
      statement_tree (λ w. (tt, record w { transfers = insert_row (new_row t) w.transfers }))
  insert_tree (some old) = ret (ok tt)

  insert_tree-runs :
      t.status ≡ status_detected
      → (o : Option BridgeRecord) (w : World) → interp (insert_tree o) w ≡ insert_or_advance t o w
  unfolding insert_tree insert_or_advance exec
  insert_tree-runs d none w =
      interp-statement (λ w. (tt, record w { transfers = insert_row (new_row t) w.transfers })) w
  insert_tree-runs d (some old) w =
      unfold interp in rw (insert_or_advance, d, priority-detected old.status) refl

  insert_tree-IsSql : (o : Option BridgeRecord) → IsSql (insert_tree o)
  unfolding insert_tree
  insert_tree-IsSql none = (insert_rows (new_row t), (λ w. tt), tt)
  insert_tree-IsSql (some old) = tt

  insert_row-Effect :
      (w : World)
      → IsFree (λ r. r.packet_hash) t.packet_hash w.transfers
      → Effect true w (record w { transfers = insert_row (new_row t) w.transfers })
  insert_row-Effect w free = record {
    at = λ i. insert_row-AdvanceRow (new_row t) i w.transfers;
    table = insert_row-IsTable (new_row t) w.transfers free;
    kept = λ e. absurd (Bool-apart true refl e);
  }

  insert_tree-Good :
      (o : Option BridgeRecord) (w : World)
      → (o ≡ none → IsFree (λ r. r.packet_hash) t.packet_hash w.transfers)
      → Good true (keys w) (insert_tree o)
  unfolding insert_tree
  insert_tree-Good none w free = (
    λ v at. (
      insert_row-Effect v
          (keys_of-IsFree t.packet_hash w.transfers v.transfers (at refl) (free refl)),
      tt,
    ),
    tt,
  )
  insert_tree-Good (some old) w free = tt

  pub Grows-insert : (pg : Postgres) → t.status ≡ status_detected → Grows true (insert pg t)
  unfolding insert bind_tree
  Grows-insert pg d = record {
    tree = bind_tree (statement_tree (λ w. (found w, w))) insert_tree;
    runs =
        bind_tree-runs (statement_tree (λ w. (found w, w))) insert_tree (query found)
          (insert_or_advance t) (interp-statement (λ w. (found w, w))) (insert_tree-runs d);
    single = (select, (λ w. insert_tree-IsSql (found w)), tt);
    good = λ ks. (
      λ w at. (
        Effect-refl true w w refl,
        insert_tree-Good (found w) w
            (λ e. keep-IsFree t.packet_hash w.transfers (pg.pick_none _ e)),
      ),
      tt,
    );
  }
    where
      found : World → Option BridgeRecord
      found w = pg.pick (keep (λ r. str_eq r.packet_hash t.packet_hash) w.transfers)

pub ruleset growth = (
  Grows-pure, Grows-raise, Grows-panic, Grows-query, Grows-attempt, Grows-if, Grows-bind,
  Grows-mark_processing, Grows-mark_done, Grows-mark_failed, Grows-set_tx_in, Grows-set_cursor,
)
