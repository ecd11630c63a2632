-- ===== src/Indexer/Runs.antt =====
-- internal/indexer: what holds of the transfers table over any run of the indexer.
use gno_ibc_relayer_api.Prelude.{Option, none, some, List, [], ◌∷◌, All}
use gno_ibc_relayer_api.Prelude.Int.{ℤ}
use gno_ibc_relayer_api.Db.World.{World, QueueRow, FailedRow, M}
use gno_ibc_relayer_api.Db.Table.{Postgres}
use gno_ibc_relayer_api.Db.Advance.{Advances}
use gno_ibc_relayer_api.Db.Unique.{IsTable}
use gno_ibc_relayer_api.Prelude.{Bool, true, ◌≡◌, refl, sym, subst}
use gno_ibc_relayer_api.Indexer.Effects.{Grows, Grows-bind, Grows-pure, Grows-Effect}
use gno_ibc_relayer_api.Indexer.Handlers.{
  Grows-or_else, Grows-ignore, Grows-handle_done_notification, Grows-handle_failed_notification,
  Grows-insert_parsed,
}
use gno_ibc_relayer_api.Indexer.Marks.{or_else, ignore}
use gno_ibc_relayer_api.Indexer.Batches.{queue_row, done_row, failed_row}
use gno_ibc_relayer_api.Indexer.Events.{
  Setup, Event, start, tick, queue_lost, done_lost, failed_lost, queue_notified, done_notified,
  failed_notified, payload_id, on_row, on_payload, insert_queue_row, fail_row, handle, run,
}
use gno_ibc_relayer_api.Indexer.Sync.{sync_queue}
use gno_ibc_relayer_api.Indexer.Passes.{
  Grows-sync_queue, Grows-sync_done, Grows-sync_failed, Grows-sync_processing, Grows-queue_row,
  Grows-done_row, Grows-failed_row,
}

Grows-on_row :
    {b : Bool} {A : Type 0} (h : A → M (Unit {0})) (o : Option A)
    → ((a : A) → Grows b (h a))
    → Grows b (on_row h o)
Grows-on_row h none g = Grows-pure tt
Grows-on_row h (some a) g = g a

pub Grows-on_payload :
    {b : Bool} {A : Type 0} (read : ℤ → M (Option A)) (h : A → M (Unit {0})) (p : Option ℤ)
    → ((i : ℤ) → Grows b (read i))
    → ((a : A) → Grows b (h a))
    → Grows b (on_payload read h p)
Grows-on_payload read h none gr gh = Grows-pure tt
Grows-on_payload read h (some i) gr gh =
    Grows-bind (or_else none (read i)) _ (Grows-or_else none (read i) (gr i))
      (λ row. Grows-on_row h row gh)

-- Any event but the start.
abbrev pub IsLater : Event → Type 0
IsLater start = ⊥
IsLater _ = Unit

-- Only the events of the queue's listener insert rows.
abbrev pub MayInsert : Bool → Event → Type 0
MayInsert b queue_lost = b ≡ true
MayInsert b (queue_notified p) = b ≡ true
MayInsert b _ = Unit

module _ (pg : Postgres) (setup : Setup) where
  pub Grows-insert_queue_row : (row : QueueRow) → Grows true (insert_queue_row pg setup row)
  unfolding insert_queue_row
  Grows-insert_queue_row row =
      Grows-ignore _ (Grows-insert_parsed pg setup.chains row.id row.created_at row.item)

  pub Grows-fail_row : {b : Bool} (row : FailedRow) → Grows b (fail_row pg setup row)
  unfolding fail_row
  Grows-fail_row row = Grows-handle_failed_notification pg row.id row.item row.message

  -- What an event other than the start does, by statements that insert only if it is one of the queue's.
  unfoldable pub Grows-handle :
      {b : Bool} (e : Event) → IsLater e → MayInsert b e → Grows b (handle pg setup e)
  unfolding handle
  Grows-handle start h k = absurd h
  Grows-handle tick h k = Grows-ignore _ Grows-sync_processing
  Grows-handle queue_lost h k =
      subst (λ c. Grows c (ignore (sync_queue pg setup.batch_size setup.chains))) (sym k)
        (Grows-ignore _ (Grows-sync_queue pg setup.batch_size setup.chains))
  Grows-handle done_lost h k = Grows-ignore _ (Grows-sync_done pg)
  Grows-handle failed_lost h k = Grows-ignore _ (Grows-sync_failed pg setup.batch_size)
  Grows-handle (queue_notified p) h k =
      subst (λ c. Grows c (on_payload queue_row (insert_queue_row pg setup) (payload_id p))) (sym k)
        (Grows-on_payload queue_row _ (payload_id p) Grows-queue_row Grows-insert_queue_row)
  Grows-handle (done_notified p) h k =
      Grows-on_payload done_row _ (payload_id p) Grows-done_row (Grows-handle_done_notification pg)
  Grows-handle (failed_notified p) h k =
      Grows-on_payload failed_row _ (payload_id p) Grows-failed_row Grows-fail_row

  may_insert : (e : Event) → MayInsert true e
  may_insert queue_lost = refl
  may_insert (queue_notified p) = refl
  may_insert _ = tt

  pub Grows-run : (es : List Event) → All IsLater es → Grows true (run pg setup es)
  unfolding run
  Grows-run [] h = Grows-pure tt
  Grows-run (e ∷ es) h =
      Grows-bind (handle pg setup e) _ (Grows-handle e h.0 (may_insert e)) (λ _. Grows-run es h.1)

-- Over any run of events after the start (polls, notifications with any payloads, reconnections) and
-- whatever statements fail: every tracked row stays under its id, keeps all columns but status,
-- done_at, err_msg and tx_in, and does not fall back in status; a row that is done or failed keeps
-- its status, done_at and err_msg; and a tx_in that is set stays.
pub run-Advances :
    (pg : Postgres) (setup : Setup) (es : List Event) (w : World)
    → All IsLater es
    → Advances w (run pg setup es w).1
run-Advances pg setup es w h = (Grows-Effect true _ (Grows-run pg setup es h) w).at

-- Over any run of events after the start, and whatever statements fail: if no two rows of the table had
-- one id or one packet hash, none have.
pub run-IsTable :
    (pg : Postgres) (setup : Setup) (es : List Event) (w : World)
    → All IsLater es
    → IsTable w.transfers
    → IsTable (run pg setup es w).1.transfers
run-IsTable pg setup es w h t = (Grows-Effect true _ (Grows-run pg setup es h) w).table t
