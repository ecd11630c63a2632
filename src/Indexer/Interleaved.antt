-- ===== src/Indexer/Interleaved.antt =====
-- internal/indexer: what holds of the transfers table whichever way the goroutines' statements interleave.
use gno_ibc_relayer_api.Prelude.{
  ◌≡◌, refl, sym, subst, Bool, true, false, Bool-cases, inl, inr, List, [], ◌∷◌,
}
use gno_ibc_relayer_api.Prelude.{ℕ}
use gno_ibc_relayer_api.Prelude.Membership.{Bool-apart}
use gno_ibc_relayer_api.Prelude.Strings.{Bytes}
use gno_ibc_relayer_api.Db.World.{World}
use gno_ibc_relayer_api.Db.Table.{Postgres}
use gno_ibc_relayer_api.Db.Advance.{Advances}
use gno_ibc_relayer_api.Db.Unique.{IsTable}
use gno_ibc_relayer_api.Db.Trees.{Tree, ret, stmt}
use gno_ibc_relayer_api.Indexer.Effects.{keys, Effect, Good, Good-keys, Effect-refl, Effect-trans}
use gno_ibc_relayer_api.Indexer.Events.{Setup}
use gno_ibc_relayer_api.Indexer.Runs.{Grows-handle}
use gno_ibc_relayer_api.Indexer.Goroutines.{
  Goroutine, poller, queue_listener, done_listener, failed_listener, owner, inserts,
  owner-MayInsert, Threads, at, put, waiting, is_waiting, State, Move, begins, sends, relays, send,
  program, move, any_crashed, moves,
}

-- What is left of each goroutine's event advances the table: the listener of the queue counts on the
-- keys of the rows, and the others do not change them.
record Ready (ks : List (ℕ × Bytes)) (s : Threads) : Type 0 where
  of_poller : Good false ks s.of_poller
  of_queue : Good true ks s.of_queue
  of_done : Good false ks s.of_done
  of_failed : Good false ks s.of_failed

Ready-at :
    {ks : List (ℕ × Bytes)} {s : Threads}
    → Ready ks s
    → (g : Goroutine) → Good (inserts g) ks (at g s)
Ready-at r poller = r.of_poller
Ready-at r queue_listener = r.of_queue
Ready-at r done_listener = r.of_done
Ready-at r failed_listener = r.of_failed

put-Ready :
    (g : Goroutine) (t : Tree (Unit {0})) (ks ls : List (ℕ × Bytes)) (s : Threads)
    → Ready ks s
    → Good (inserts g) ls t
    → (inserts g ≡ false → ls ≡ ks)
    → Ready ls (put g t s)
put-Ready poller t ks ls s r good same =
    let q : Ready ls s = subst (λ x. Ready x s) (sym (same refl)) r in
    record { of_poller = good; of_queue = q.of_queue; of_done = q.of_done; of_failed = q.of_failed }
put-Ready queue_listener t ks ls s r good same = record {
  of_poller = Good-keys s.of_poller ks ls r.of_poller;
  of_queue = good;
  of_done = Good-keys s.of_done ks ls r.of_done;
  of_failed = Good-keys s.of_failed ks ls r.of_failed;
}
put-Ready done_listener t ks ls s r good same =
    let q : Ready ls s = subst (λ x. Ready x s) (sym (same refl)) r in
    record {
      of_poller = q.of_poller;
      of_queue = q.of_queue;
      of_done = good;
      of_failed = q.of_failed;
    }
put-Ready failed_listener t ks ls s r good same =
    let q : Ready ls s = subst (λ x. Ready x s) (sym (same refl)) r in
    record { of_poller = q.of_poller; of_queue = q.of_queue; of_done = q.of_done; of_failed = good }

send-Good :
    (b fails : Bool) (w : World) (t : Tree (Unit {0}))
    → Good b (keys w) t
    → Good b (keys (send fails w t).1) (send fails w t).0 × Effect b w (send fails w t).1
send-Good b fails w (ret r) g = (tt, Effect-refl b w w refl)
send-Good b true w (stmt f k e) g = (g.1, Effect-refl b w w refl)
send-Good b false w (stmt f k e) g = ((g.0 w (λ _. refl)).1, (g.0 w (λ _. refl)).0)

any_Effect : {b : Bool} {w v : World} → Effect b w v → Effect true w v
any_Effect e = record { at = e.at; table = e.table; kept = λ h. absurd (Bool-apart true refl h) }

Safe : State → State → Type 0
Safe s s' = Ready (keys s'.world) s'.threads × Effect true s.world s'.world

module _ (pg : Postgres) (setup : Setup) where
  move-Safe : (m : Move) (s : State) → Ready (keys s.world) s.threads → Safe s (move pg setup m s)
  unfolding move Safe
  move-Safe (begins e later) s r = elim (Bool-cases (is_waiting (at (owner e) s.threads))) [
    | inl there ↦ rw there (
      put-Ready (owner e) (program pg setup e later) (keys s.world) (keys s.world) s.threads r
          ((Grows-handle pg setup e later (owner-MayInsert e)).good (keys s.world)) (λ _. refl),
      Effect-refl true s.world s.world refl,
    )
    | inr other ↦ rw other (r, Effect-refl true s.world s.world refl)
  ]
  move-Safe (sends g fails) s r =
      let sent = send-Good (inserts g) fails s.world (at g s.threads) (Ready-at r g) in
      (
        put-Ready g (send fails s.world (at g s.threads)).0 (keys s.world)
            (keys (send fails s.world (at g s.threads)).1) s.threads r sent.0 sent.1.kept,
        any_Effect sent.1,
      )
  move-Safe (relays queue done failed) s r = (r, Effect-refl true s.world _ refl)

  moves-Safe :
      (ms : List Move) (s : State)
      → Ready (keys s.world) s.threads
      → Effect true s.world (moves pg setup ms s).world
  unfolding moves Safe
  moves-Safe [] s r = Effect-refl true s.world s.world refl
  moves-Safe (m ∷ ms) s r = elim (Bool-cases (any_crashed s.threads)) [
    | inl there ↦ rw (moves, there) (moves-Safe ms s r)
    | inr other ↦
        rw (moves, other)
          (let h = move-Safe m s r in
            Effect-trans true s.world (move pg setup m s).world _ h.1
              (moves-Safe ms (move pg setup m s) h.0))
  ]

waiting-Ready : (ks : List (ℕ × Bytes)) → Ready ks waiting
waiting-Ready ks = record { of_poller = tt; of_queue = tt; of_done = tt; of_failed = tt }

-- The four goroutines wait, and then any events come to them; their statements interleave in any
-- order, any of them fail, and the relayer changes its tables in between. Every tracked row stays under
-- its id, keeps all columns but status, done_at, err_msg and tx_in, and does not fall back in status; a
-- row that is done or failed keeps its status, done_at and err_msg; and a tx_in that is set stays.
pub moves-Advances :
    (pg : Postgres) (setup : Setup) (ms : List Move) (w : World)
    → Advances w (moves pg setup ms (record { threads = waiting; world = w })).world
moves-Advances pg setup ms w =
    (moves-Safe pg setup ms (record { threads = waiting; world = w }) (waiting-Ready (keys w))).at

-- The four goroutines wait, and then any events come to them; their statements interleave in any
-- order, any of them fail, and the relayer changes its tables in between. If no two rows of the
-- transfers table had one id or one packet hash, none have, although an insertion looks for its packet
-- hash in a statement of its own.
pub moves-IsTable :
    (pg : Postgres) (setup : Setup) (ms : List Move) (w : World)
    → IsTable w.transfers
    → IsTable (moves pg setup ms (record { threads = waiting; world = w })).world.transfers
moves-IsTable pg setup ms w =
    (moves-Safe pg setup ms (record { threads = waiting; world = w })
      (waiting-Ready (keys w))).table
