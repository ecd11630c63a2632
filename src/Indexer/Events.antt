-- ===== src/Indexer/Events.antt =====
-- internal/indexer/indexer.go and listener.go: what the indexer does on each event that its goroutines
-- wait for. The waiting, the connections and the delays are the environment's: an event is the start,
-- a tick of the poll timer, a notification with its payload, or a lost connection of one listener,
-- which that listener answers with a catch-up. A run is a list of events, each handled whole.
use gno_ibc_relayer_api.Prelude.{Option, none, some, List, [], ◌∷◌, if◌then◌else◌}
use gno_ibc_relayer_api.Prelude.Int.{ℤ}
use gno_ibc_relayer_api.Prelude.Strings.{Bytes}
use gno_ibc_relayer_api.Strconv.{parse_int}
use gno_ibc_relayer_api.Config.{ChannelChain}
use gno_ibc_relayer_api.Db.World.{QueueRow, FailedRow, M, ◌>>=◌, ◌>>◌, pure}
use gno_ibc_relayer_api.Db.Table.{Postgres}
use gno_ibc_relayer_api.Db.Bridge.{dedupe_by_packet_hash}
use gno_ibc_relayer_api.Indexer.Parser.{parse}
use gno_ibc_relayer_api.Indexer.Batches.{queue_row, done_row, failed_row}
use gno_ibc_relayer_api.Indexer.Marks.{
  or_else, ignore, insert_parsed, handle_done_notification, handle_failed_notification,
}
use gno_ibc_relayer_api.Indexer.Sync.{sync_queue, sync_processing, sync_done, sync_failed}

-- `Indexer`, without its database handles.
pub record Setup : Type 0 where
  pub batch_size : ℤ
  pub chains : List ChannelChain

pub data Event : Type 0 where
  start tick queue_lost done_lost failed_lost : Event
  queue_notified done_notified failed_notified : Bytes → Event

unfoldable pub poll : M (Unit {0})
poll = sync_processing

-- The id of a payload, if `strconv.ParseInt` reads it.
abbrev pub payload_id : Bytes → Option ℤ
payload_id payload = let (i, valid) = parse_int payload in if valid then some i else none

abbrev pub on_row : {A : Type 0} → (A → M (Unit {0})) → Option A → M (Unit {0})
on_row handle none = pure tt
on_row handle (some row) = handle row

abbrev pub on_payload :
    {A : Type 0} → (ℤ → M (Option A)) → (A → M (Unit {0})) → Option ℤ → M (Unit {0})
on_payload read handle none = pure tt
on_payload read handle (some i) = do row ← or_else none (read i); on_row handle row

module _ (pg : Postgres) (setup : Setup) where
  unfoldable pub insert_queue_row : QueueRow → M (Unit {0})
  insert_queue_row row =
      ignore (insert_parsed pg (parse row.id row.item row.created_at setup.chains))

  unfoldable pub fail_row : FailedRow → M (Unit {0})
  fail_row row = handle_failed_notification pg row.id row.item row.message

  -- The start of `Run`, up to its loop.
  unfoldable pub startup : M (Unit {0})
  startup = do
    ignore dedupe_by_packet_hash
    ignore (sync_queue pg setup.batch_size setup.chains)
    ignore (sync_done pg)
    ignore (sync_failed pg setup.batch_size)

  unfoldable pub handle : Event → M (Unit {0})
  unfolding startup poll insert_queue_row fail_row
  handle start = startup
  handle tick = ignore poll
  handle queue_lost = ignore (sync_queue pg setup.batch_size setup.chains)
  handle done_lost = ignore (sync_done pg)
  handle failed_lost = ignore (sync_failed pg setup.batch_size)
  handle (queue_notified payload) = on_payload queue_row insert_queue_row (payload_id payload)
  handle (done_notified payload) =
      on_payload done_row (handle_done_notification pg) (payload_id payload)
  handle (failed_notified payload) = on_payload failed_row fail_row (payload_id payload)

  -- A panic ends the process.
  unfoldable pub run : List Event → M (Unit {0})
  unfolding handle
  run [] = pure tt
  run (e ∷ es) = do handle e; run es
