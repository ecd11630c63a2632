-- ===== src/Indexer/Schedules.antt =====
-- The theorems about the goroutines of internal/indexer at a concrete order of their statements.
use gno_ibc_relayer_api.Prelude.{◌≡◌, refl, true, false, List, [], ◌∷◌}
use gno_ibc_relayer_api.Prelude.Strings.{codes}
use gno_ibc_relayer_api.Db.World.{World}
use gno_ibc_relayer_api.Db.Sample.{sample}
use gno_ibc_relayer_api.Db.Advance.{Advances}
use gno_ibc_relayer_api.Db.Unique.{IsTable}
use gno_ibc_relayer_api.Db.Trees.{ret}
use gno_ibc_relayer_api.Db.World.{ok}
use gno_ibc_relayer_api.Indexer.Events.{tick, queue_notified, failed_notified}
use gno_ibc_relayer_api.Indexer.Goroutines.{
  Move, State, begins, sends, relays, move, moves, waiting, put, program, poller, queue_listener,
  failed_listener,
}
use gno_ibc_relayer_api.Indexer.Interleaved.{moves-Advances, moves-IsTable}
use gno_ibc_relayer_api.Indexer.Polled.{marked, poll-marks, poll-ends}
use gno_ibc_relayer_api.Indexer.Tests.{sent, setup, detected_bridge}

-- A bridge that is not in the queue, and one in the queue that is not tracked yet.
abbrev untracked : World
untracked = record detected_bridge {
  transfers = record sent { id = 6; packet_hash = codes "0xcd" } ∷ [];
}

untracked-IsTable : IsTable untracked.transfers
untracked-IsTable = ((tt, tt), (tt, tt))

-- While the listener of the queue reads, looks up and inserts the one, the poller marks the other, and the
-- relayer moves the row from its queue; a statement of the third goroutine fails.
abbrev schedule : List Move
schedule =
    begins (queue_notified (codes "5")) tt
    ∷ sends queue_listener false
    ∷ begins tick tt
    ∷ sends poller false
    ∷ sends queue_listener false
    ∷ begins (failed_notified (codes "5")) tt
    ∷ relays [] [] []
    ∷ sends failed_listener true
    ∷ sends poller false
    ∷ sends poller false
    ∷ sends queue_listener false
    ∷ []

abbrev scheduled : State
scheduled = moves sample setup schedule (record { threads = waiting; world = untracked })

moves-Advances_example : Advances untracked scheduled.world
moves-Advances_example = moves-Advances sample setup schedule untracked

moves-IsTable_example : IsTable scheduled.world.transfers
moves-IsTable_example = moves-IsTable sample setup schedule untracked untracked-IsTable

-- A poll has begun, with one detected bridge that is not in the queue.
abbrev polling : State
polling = record { threads = put poller (program sample setup tick tt) waiting; world = untracked }

-- Before its second statement another bridge is inserted, and before its third one its bridge is done.
abbrev read_bridges : State
read_bridges = record (move sample setup (sends poller false) polling) {
  world = record untracked {
    transfers = record sent { id = 6; packet_hash = codes "0xcd" } ∷ sent ∷ [];
  };
}

abbrev read_queue : State
read_queue = record (move sample setup (sends poller false) read_bridges) {
  world = record untracked {
    transfers = record sent { id = 6; packet_hash = codes "0xcd"; status = 2 } ∷ sent ∷ [];
  };
}

poll-marks_example :
    ((move sample setup (sends poller false) read_queue).threads.of_poller ≡ ret (ok tt))
    × ((move sample setup (sends poller false) read_queue).world
        ≡ marked polling.world read_bridges.world read_queue.world)
poll-marks_example = poll-marks sample setup polling read_bridges read_queue refl refl refl

-- The second statement fails.
abbrev not_read : State
not_read = record (move sample setup (sends poller true) read_bridges) { world = untracked }

poll-ends_example :
    (move sample setup (sends poller false) not_read).threads.of_poller ≡ ret (ok tt)
poll-ends_example =
    poll-ends sample setup polling read_bridges not_read false true false refl refl refl
