-- ===== src/Indexer/Goroutines.antt =====
-- internal/indexer/indexer.go and listener.go: the goroutines that `Run` starts, statement by statement.
-- The loop of `Run` and the three listeners each handle one event at a time. Between two statements
-- of one of them come any statements of the others, and any changes of the relayer to its tables. Which
-- statements fail is said by the moves; the world's own list of faults is not read.
use gno_ibc_relayer_api.Prelude.{refl, Bool, true, false, ◌||◌, List, [], ◌∷◌, if◌then◌else◌}
use gno_ibc_relayer_api.Db.World.{World, QueueRow, DoneRow, FailedRow, ok, crash}
use gno_ibc_relayer_api.Db.Table.{Postgres}
use gno_ibc_relayer_api.Db.Trees.{Tree, ret, stmt}
use gno_ibc_relayer_api.Indexer.Events.{
  Setup, Event, start, tick, queue_lost, done_lost, failed_lost, queue_notified, done_notified,
  failed_notified,
}
use gno_ibc_relayer_api.Indexer.Runs.{IsLater, MayInsert, Grows-handle}

pub data Goroutine : Type 0 where
  poller queue_listener done_listener failed_listener : Goroutine

-- Which goroutine waits for the event. The start comes before the listeners.
abbrev pub owner : Event → Goroutine
owner start = poller
owner tick = poller
owner queue_lost = queue_listener
owner (queue_notified payload) = queue_listener
owner done_lost = done_listener
owner (done_notified payload) = done_listener
owner failed_lost = failed_listener
owner (failed_notified payload) = failed_listener

-- For the proofs: only one of them inserts bridges.
abbrev pub inserts : Goroutine → Bool
inserts queue_listener = true
inserts _ = false

pub owner-MayInsert : (e : Event) → MayInsert (inserts (owner e)) e
owner-MayInsert queue_lost = refl
owner-MayInsert (queue_notified payload) = refl
owner-MayInsert start = tt
owner-MayInsert tick = tt
owner-MayInsert done_lost = tt
owner-MayInsert (done_notified payload) = tt
owner-MayInsert failed_lost = tt
owner-MayInsert (failed_notified payload) = tt

-- What each goroutine has left of the event that it handles.
pub record Threads : Type 0 where
  pub of_poller : Tree (Unit {0})
  pub of_queue : Tree (Unit {0})
  pub of_done : Tree (Unit {0})
  pub of_failed : Tree (Unit {0})

abbrev pub at : Goroutine → Threads → Tree (Unit {0})
at poller s = s.of_poller
at queue_listener s = s.of_queue
at done_listener s = s.of_done
at failed_listener s = s.of_failed

abbrev pub put : Goroutine → Tree (Unit {0}) → Threads → Threads
put poller t s = record s { of_poller = t }
put queue_listener t s = record s { of_queue = t }
put done_listener t s = record s { of_done = t }
put failed_listener t s = record s { of_failed = t }

-- Each goroutine waits for an event.
abbrev pub waiting : Threads
waiting = record {
  of_poller = ret (ok tt);
  of_queue = ret (ok tt);
  of_done = ret (ok tt);
  of_failed = ret (ok tt);
}

abbrev pub is_waiting : Tree (Unit {0}) → Bool
is_waiting (ret (ok a)) = true
is_waiting _ = false

abbrev pub is_busy : Tree (Unit {0}) → Bool
is_busy (stmt f k e) = true
is_busy (ret r) = false

abbrev pub is_crashed : Tree (Unit {0}) → Bool
is_crashed (ret crash) = true
is_crashed _ = false

pub record State : Type 0 where
  pub threads : Threads
  pub world : World

-- An event comes to its goroutine; a goroutine sends its next statement, which may fail; or the relayer
-- changes its tables.
pub data Move : Type 0 where
  begins : (e : Event) → IsLater e → Move
  sends : Goroutine → Bool → Move
  relays : List QueueRow → List DoneRow → List FailedRow → Move

-- The next statement, and what is left after it.
abbrev pub send : Bool → World → Tree (Unit {0}) → Tree (Unit {0}) × World
send fails w (ret r) = (ret r, w)
send true w (stmt f k e) = (e, w)
send false w (stmt f k e) = (k w, f w)

abbrev pub any_crashed : Threads → Bool
any_crashed s =
    is_crashed s.of_poller
    || is_crashed s.of_queue
    || is_crashed s.of_done
    || is_crashed s.of_failed

module _ (pg : Postgres) (setup : Setup) where
  -- The statements of `handle pg setup e`, in their order: the tree that Grows-handle makes of its text,
  -- a branch for each answer of a query, with the proof that it runs as `handle` does.
  abbrev pub program : (e : Event) → IsLater e → Tree (Unit {0})
  program e later = (Grows-handle pg setup e later (owner-MayInsert e)).tree

  -- A goroutine that is not waiting has its event to finish first.
  unfoldable pub move : Move → State → State
  move (begins e later) s =
      if is_waiting (at (owner e) s.threads)
      then record s { threads = put (owner e) (program e later) s.threads }
      else s
  move (sends g fails) s =
      let (left, w) = send fails s.world (at g s.threads) in
      record { threads = put g left s.threads; world = w }
  move (relays queue done failed) s = record s {
    world = record s.world { queue = queue; done = done; failed = failed };
  }

  -- A panic of one goroutine ends the process.
  unfoldable pub moves : List Move → State → State
  moves [] s = s
  moves (m ∷ ms) s = moves ms (if any_crashed s.threads then s else move m s)
