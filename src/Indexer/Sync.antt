-- ===== src/Indexer/Sync.antt =====
-- internal/indexer/sync.go: the catch-up passes over the relayer's tables.
-- The rows of a query arrive with its statement; an error while they stream is that of the statement.
use gno_ibc_relayer_api.Prelude.{ℕ, not, ◌||◌, List, [], ◌∷◌, ltb, ◌==◌, if◌then◌else◌, keep}
use gno_ibc_relayer_api.Prelude.Int.{ℤ}
use gno_ibc_relayer_api.Prelude.Strings.{Bytes, codes}
use gno_ibc_relayer_api.Config.{ChannelChain}
use gno_ibc_relayer_api.Db.World.{
  QueueRow, DoneRow, FailedRow, ok, err, crash, M, ◌>>=◌, ◌>>◌, pure, attempt,
}
use gno_ibc_relayer_api.Db.Table.{Postgres, in_ids}
use gno_ibc_relayer_api.Db.Bridge.{
  get_cursor, set_cursor, get_detected_ids, get_in_flight_created_at, mark_processing, mark_failed,
}
use gno_ibc_relayer_api.Indexer.Parser.{parse}
use gno_ibc_relayer_api.Indexer.Batches.{batch, queued_ids, done_since}
use gno_ibc_relayer_api.Indexer.Marks.{
  or_else, ignore, handle_done_catch_up, trace_failed_ancestor, insert_parsed,
}

abbrev pub queue_cursor : Bytes
queue_cursor = codes "queue"

abbrev pub failed_cursor : Bytes
failed_cursor = codes "failed"

-- `if lastID > 0 { return SetCursor(…) }`
unfoldable pub advance_cursor : Bytes → ℕ → M (Unit {0})
advance_cursor name last = if ltb 0 last then set_cursor name last else pure tt

-- `oldest`, by a fold over the times.
unfoldable pub oldest_of : ℕ → List ℕ → ℕ
oldest_of oldest [] = oldest
oldest_of oldest (t ∷ ts) = oldest_of (if ltb t oldest then t else oldest) ts

-- The ids of `ids` that are not in `queued`.
unfoldable pub gone_of : List ℕ → List ℕ → List ℕ
gone_of queued ids = keep (λ i. not (in_ids queued i)) ids

unfoldable pub mark_gone : List ℕ → M (Unit {0})
mark_gone [] = pure tt
mark_gone (i ∷ ids) = mark_processing (i ∷ ids)

unfoldable pub compare_queue : List ℕ → M (Unit {0})
unfolding mark_gone gone_of
compare_queue [] = pure tt
compare_queue (i ∷ ids) = do queued ← queued_ids (i ∷ ids); mark_gone (gone_of queued (i ∷ ids))

unfoldable pub sync_processing : M (Unit {0})
unfolding compare_queue
sync_processing = do detected ← get_detected_ids; compare_queue detected

module _ (pg : Postgres) where
  -- The loop of `syncQueue`: a row that does not parse is passed over, and an error of an insertion
  -- ends the pass before the cursor moves. The result is `lastID`.
  unfoldable pub queue_rows : List ChannelChain → List QueueRow → ℕ → M ℕ
  queue_rows chains [] last = pure last
  queue_rows chains (row ∷ rows) last = do
    insert_parsed pg (parse row.id row.item row.created_at chains)
    queue_rows chains rows row.id

  unfoldable pub sync_queue : ℤ → List ChannelChain → M (Unit {0})
  unfolding queue_rows advance_cursor
  sync_queue batch_size chains = do
    cursor ← get_cursor queue_cursor
    rows ← batch (λ r. r.id) (λ w. w.queue) cursor batch_size
    last ← queue_rows chains rows 0
    advance_cursor queue_cursor last

  unfoldable pub done_rows : List DoneRow → M (Unit {0})
  done_rows [] = pure tt
  done_rows (row ∷ rows) = do handle_done_catch_up pg row; done_rows rows

  unfoldable pub catch_up : List ℕ → M (Unit {0})
  unfolding done_rows oldest_of
  catch_up [] = pure tt
  catch_up (t ∷ ts) = do rows ← done_since (oldest_of t ts); done_rows rows

  unfoldable pub sync_done : M (Unit {0})
  unfolding catch_up
  sync_done = do created_ats ← get_in_flight_created_at; catch_up created_ats

  -- The rest of a round of `syncFailed`, after the row's own id is handled.
  unfoldable pub fail_ancestor : FailedRow → M (Unit {0})
  fail_ancestor row = do
    ancestor ← or_else 0 (trace_failed_ancestor pg row.parents)
    if ancestor == 0 || ancestor == row.id
        then pure tt
        else ignore (mark_failed ancestor row.message [])

  -- The loop of `syncFailed`: an error of the first update ends it, with the rows before it done.
  unfoldable pub failed_rows : List FailedRow → ℕ → M ℕ
  unfolding fail_ancestor
  failed_rows [] last = pure last
  failed_rows (row ∷ rows) last = do
    r ← attempt (mark_failed row.id row.message [])
    elim r [
      | ok _ ↦ do fail_ancestor row; failed_rows rows row.id
      | err _ ↦ pure last
      | crash ↦ pure last
    ]

  unfoldable pub sync_failed : ℤ → M (Unit {0})
  unfolding failed_rows advance_cursor
  sync_failed batch_size = do
    cursor ← get_cursor failed_cursor
    rows ← batch (λ r. r.id) (λ w. w.failed) cursor batch_size
    last ← failed_rows rows 0
    advance_cursor failed_cursor last
