-- ===== src/Indexer/Replays.antt =====
-- The theorems about the start of internal/indexer/indexer.go and its catch-up at concrete tables.
use gno_ibc_relayer_api.Prelude.{arith, ◌≡◌, refl, some, List, [], ◌∷◌, keep, any}
use gno_ibc_relayer_api.Prelude.Strings.{codes, str_eq}
use gno_ibc_relayer_api.Json.{string}
use gno_ibc_relayer_api.Db.Record.{status_priority}
use gno_ibc_relayer_api.Db.World.{World, DoneRow, ok, statement}
use gno_ibc_relayer_api.Db.Sample.{sample}
use gno_ibc_relayer_api.Db.Table.{dedupe_rows, row_number, precedes, same_hash}
use gno_ibc_relayer_api.Db.Bridge.{dedupe_by_packet_hash}
use gno_ibc_relayer_api.Db.Unique.{IsTable, IsUniqueBy}
use gno_ibc_relayer_api.Indexer.Batches.{is_relevant}
use gno_ibc_relayer_api.Indexer.Sync.{done_rows}
use gno_ibc_relayer_api.Indexer.Events.{Event, run, start, tick, queue_lost, failed_notified}
use gno_ibc_relayer_api.Indexer.Starts.{run-start}
use gno_ibc_relayer_api.Indexer.Relevant.{done_rows-relevant}
use gno_ibc_relayer_api.Prelude.{inl, inr, ap}
use gno_ibc_relayer_api.Prelude.Int.{pos}
use gno_ibc_relayer_api.Db.Bridge.{cursor_of}
use gno_ibc_relayer_api.Indexer.Sync.{sync_queue}
use gno_ibc_relayer_api.Indexer.Cursors.{IsCursorSound, sync_queue-IsCursorSound}
use gno_ibc_relayer_api.Db.World.{Result}
use gno_ibc_relayer_api.Db.Table.{update, in_ids}
use gno_ibc_relayer_api.Indexer.Sync.{sync_processing}
use gno_ibc_relayer_api.Indexer.Polls.{is_gone, to_processing, sync_processing-update}
use gno_ibc_relayer_api.Indexer.Tests.{routes, sent, setup, detected_bridge, timeout_row}

-- The bridge is tracked twice, and its relay in the queue.
abbrev tracked_twice : World
tracked_twice = record detected_bridge {
  transfers = record sent { id = 4; status = 3 } ∷ record sent { status = 2 } ∷ [];
}

tracked_twice-ids : IsUniqueBy (λ r. r.id) tracked_twice.transfers
tracked_twice-ids = (((λ e. omega arith), tt), (tt, tt))

dedupes_start :
    dedupe_by_packet_hash tracked_twice
    ≡ (ok 1, record tracked_twice { transfers = record sent { status = 2 } ∷ [] })
unfolding dedupe_by_packet_hash statement dedupe_rows row_number precedes status_priority keep any
    str_eq same_hash
dedupes_start = refl

abbrev later : List Event
later = tick ∷ queue_lost ∷ failed_notified (codes "5") ∷ []

run-start_example : IsTable (run sample setup (start ∷ later) tracked_twice).1.transfers
run-start_example =
    run-start sample setup later tracked_twice
      (record tracked_twice { transfers = record sent { status = 2 } ∷ [] }) 1 (tt, (tt, (tt, tt)))
      tracked_twice-ids dedupes_start

-- A row that the conditions pass over.
abbrev other_row : DoneRow
other_row = record timeout_row { item = some (string (codes "update_client")) }

done_rows-relevant_example :
    done_rows sample (keep (λ r. is_relevant r.item) (other_row ∷ timeout_row ∷ [])) detected_bridge
    ≡ done_rows sample (other_row ∷ timeout_row ∷ []) detected_bridge
done_rows-relevant_example =
    done_rows-relevant sample (other_row ∷ timeout_row ∷ []) detected_bridge

-- The queue has a row above the cursor, which is still 0.
empty_cursor : IsCursorSound sample routes detected_bridge
unfolding cursor_of
empty_cursor = record {
  reads = λ row i below. elim i [
    | inl e ↦ absurd (let k : row.id ≡ 5 = ap (λ r. r.id) e in omega arith)
    | inr j ↦ absurd j
  ];
}

sync_queue-IsCursorSound_example :
    IsCursorSound sample routes (sync_queue sample (pos 10) routes detected_bridge).1
sync_queue-IsCursorSound_example =
    sync_queue-IsCursorSound sample routes (pos 10) detected_bridge (tt, tt) empty_cursor

-- One detected bridge is in the queue, and the other is not.
abbrev two_detected : World
two_detected = record detected_bridge {
  transfers = sent ∷ record sent { id = 6; packet_hash = codes "0xcd" } ∷ [];
}

sync_processing-update_example :
    ◌≡◌ {A = Result (Unit {0}) × World} (sync_processing two_detected) (
      ok tt,
      record two_detected {
        transfers = update (is_gone (5 ∷ [])) to_processing two_detected.transfers;
      },
    )
sync_processing-update_example = sync_processing-update two_detected refl

-- The bridge that left the queue is in processing.
moves_second :
    update (is_gone (5 ∷ [])) to_processing two_detected.transfers
    ≡ sent ∷ record sent { id = 6; packet_hash = codes "0xcd"; status = 1 } ∷ []
unfolding update is_gone in_ids any
moves_second = refl
