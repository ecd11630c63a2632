-- ===== src/Indexer/Passes.antt =====
-- internal/indexer/sync.go: each catch-up pass only advances the bridges.
use gno_ibc_relayer_api.Prelude.{ℕ, List, [], ◌∷◌}
use gno_ibc_relayer_api.Prelude.Int.{ℤ, pos, negsuc}
use gno_ibc_relayer_api.Prelude.Strings.{Bytes}
use gno_ibc_relayer_api.Config.{ChannelChain}
use gno_ibc_relayer_api.Db.World.{
  World, QueueRow, DoneRow, FailedRow, Result, ok, err, crash, ◌>>◌, pure, attempt,
}
use gno_ibc_relayer_api.Db.Table.{Postgres}
use gno_ibc_relayer_api.Db.Bridge.{
  get_cursor, get_detected_ids, get_in_flight_created_at, mark_failed,
}
use gno_ibc_relayer_api.Prelude.{Bool, true}
use gno_ibc_relayer_api.Indexer.Effects.{
  Grows, Grows-query, Grows-raise, Grows-bind, Grows-pure, Grows-attempt,
}
use gno_ibc_relayer_api.Indexer.Growth.{growth, Grows-mark_processing, Grows-mark_failed}
use gno_ibc_relayer_api.Indexer.Handlers.{
  Grows-handle_done_catch_up, Grows-trace_failed_ancestor, Grows-insert_parsed, marks,
}
use gno_ibc_relayer_api.Indexer.Marks.{handle_done_catch_up, insert_parsed}
use gno_ibc_relayer_api.Indexer.Parser.{parse}
use gno_ibc_relayer_api.Indexer.Batches.{
  batch, queued_ids, done_since, queue_row, done_row, failed_row,
}
use gno_ibc_relayer_api.Indexer.Sync.{
  advance_cursor, mark_gone, compare_queue, sync_processing, queue_rows, sync_queue, done_rows,
  catch_up, sync_done, fail_ancestor, failed_rows, sync_failed,
}

Grows-batch :
    {b : Bool} {A : Type 0} (key : A → ℕ) (table : World → List A) (cursor : ℕ) (n : ℤ)
    → Grows b (batch key table cursor n)
unfolding batch
Grows-batch key table cursor (pos n) = Grows-query _
Grows-batch key table cursor (negsuc n) = Grows-raise _

Grows-get_cursor : {b : Bool} (n : Bytes) → Grows b (get_cursor n)
unfolding get_cursor
Grows-get_cursor n = Grows-query _

unfoldable pub Grows-get_detected_ids : {b : Bool} → Grows b get_detected_ids
unfolding get_detected_ids
Grows-get_detected_ids = Grows-query _

Grows-get_in_flight : {b : Bool} → Grows b get_in_flight_created_at
unfolding get_in_flight_created_at
Grows-get_in_flight = Grows-query _

Grows-done_since : {b : Bool} (t : ℕ) → Grows b (done_since t)
unfolding done_since
Grows-done_since t = Grows-query _

unfoldable pub Grows-queued_ids : {b : Bool} (ids : List ℕ) → Grows b (queued_ids ids)
unfolding queued_ids
Grows-queued_ids ids = Grows-query _

pub Grows-queue_row : {b : Bool} (i : ℤ) → Grows b (queue_row i)
unfolding queue_row
Grows-queue_row (pos i) = Grows-query _
Grows-queue_row (negsuc i) = Grows-query _

pub Grows-done_row : {b : Bool} (i : ℤ) → Grows b (done_row i)
unfolding done_row
Grows-done_row (pos i) = Grows-query _
Grows-done_row (negsuc i) = Grows-query _

pub Grows-failed_row : {b : Bool} (i : ℤ) → Grows b (failed_row i)
unfolding failed_row
Grows-failed_row (pos i) = Grows-query _
Grows-failed_row (negsuc i) = Grows-query _

Grows-advance_cursor : {b : Bool} (n : Bytes) (i : ℕ) → Grows b (advance_cursor n i)
unfolding advance_cursor
Grows-advance_cursor n i = search growth

unfoldable pub Grows-mark_gone : {b : Bool} (ids : List ℕ) → Grows b (mark_gone ids)
unfolding mark_gone
Grows-mark_gone [] = Grows-pure tt
Grows-mark_gone (i ∷ ids) = Grows-mark_processing (i ∷ ids)

unfoldable pub Grows-compare_queue : {b : Bool} (ids : List ℕ) → Grows b (compare_queue ids)
unfolding compare_queue
Grows-compare_queue [] = Grows-pure tt
Grows-compare_queue (i ∷ ids) =
    Grows-bind (queued_ids (i ∷ ids)) _ (Grows-queued_ids (i ∷ ids)) (λ queued. Grows-mark_gone _)

unfoldable pub Grows-sync_processing : {b : Bool} → Grows b sync_processing
unfolding sync_processing
Grows-sync_processing =
    Grows-bind get_detected_ids _ Grows-get_detected_ids (λ detected. Grows-compare_queue detected)

module _ (pg : Postgres) where
  Grows-queue_rows :
      (chains : List ChannelChain) (rows : List QueueRow) (last : ℕ)
      → Grows true (queue_rows pg chains rows last)
  unfolding queue_rows
  Grows-queue_rows chains [] last = Grows-pure last
  Grows-queue_rows chains (row ∷ rows) last =
      Grows-bind (insert_parsed pg (parse row.id row.item row.created_at chains)) _
        (Grows-insert_parsed pg chains row.id row.created_at row.item)
        (λ _. Grows-queue_rows chains rows row.id)

  pub Grows-sync_queue : (n : ℤ) (chains : List ChannelChain) → Grows true (sync_queue pg n chains)
  unfolding sync_queue
  Grows-sync_queue n chains =
      search (growth, Grows-get_cursor, Grows-batch, Grows-queue_rows, Grows-advance_cursor)

  Grows-done_rows : {b : Bool} (rows : List DoneRow) → Grows b (done_rows pg rows)
  unfolding done_rows
  Grows-done_rows [] = Grows-pure tt
  Grows-done_rows (row ∷ rows) =
      Grows-bind (handle_done_catch_up pg row) _ (Grows-handle_done_catch_up pg row)
        (λ _. Grows-done_rows rows)

  Grows-catch_up : {b : Bool} (ts : List ℕ) → Grows b (catch_up pg ts)
  unfolding catch_up
  Grows-catch_up [] = Grows-pure tt
  Grows-catch_up (t ∷ ts) = search (growth, Grows-done_since, Grows-done_rows)

  pub Grows-sync_done : {b : Bool} → Grows b (sync_done pg)
  unfolding sync_done
  Grows-sync_done = search (growth, Grows-get_in_flight, Grows-catch_up)

  Grows-fail_ancestor : {b : Bool} (row : FailedRow) → Grows b (fail_ancestor pg row)
  unfolding fail_ancestor
  Grows-fail_ancestor row = search (marks, Grows-trace_failed_ancestor)

  Grows-failed_rows :
      {b : Bool} (rows : List FailedRow) (last : ℕ) → Grows b (failed_rows pg rows last)
  unfolding failed_rows
  Grows-failed_rows [] last = Grows-pure last
  Grows-failed_rows {b} (row ∷ rows) last =
      Grows-bind (attempt (mark_failed row.id row.message [])) _
        (Grows-attempt _ (Grows-mark_failed row.id row.message []))
        (by_result (Grows-failed_rows rows row.id))
    where
      by_result :
          Grows b (failed_rows pg rows row.id)
          → (r : Result Bool)
          → Grows b (elim r [
            | ok _ ↦ do fail_ancestor pg row; failed_rows pg rows row.id
            | err _ ↦ pure last
            | crash ↦ pure last
          ])
      by_result g (ok b) = Grows-bind (fail_ancestor pg row) _ (Grows-fail_ancestor row) (λ _. g)
      by_result g (err e) = Grows-pure last
      by_result g crash = Grows-pure last

  pub Grows-sync_failed : {b : Bool} (n : ℤ) → Grows b (sync_failed pg n)
  unfolding sync_failed
  Grows-sync_failed n =
      search (growth, Grows-get_cursor, Grows-batch, Grows-failed_rows, Grows-advance_cursor)
