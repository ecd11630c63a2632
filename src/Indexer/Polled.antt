-- ===== src/Indexer/Polled.antt =====
-- internal/indexer/sync.go: a poll whose statements other goroutines' statements come between.
use gno_ibc_relayer_api.Prelude.{
  ℕ, ◌≡◌, refl, sym, ap, ◌∙◌, Bool, true, false, not, ◌&&◌, List, [], ◌∷◌, map, keep, any, arith,
  ◌==◌,
}
use gno_ibc_relayer_api.Db.Record.{BridgeRecord, status_detected}
use gno_ibc_relayer_api.Db.World.{World, ok}
use gno_ibc_relayer_api.Db.Table.{Postgres, update, in_ids}
use gno_ibc_relayer_api.Db.Trees.{Tree, ret, bind_tree, attempt_tree}
use gno_ibc_relayer_api.Db.Bridge.{get_detected_ids}
use gno_ibc_relayer_api.Indexer.Batches.{queued_ids}
use gno_ibc_relayer_api.Indexer.Sync.{gone_of}
use gno_ibc_relayer_api.Indexer.Polls.{in_ids-keep, update-congr, update-none, to_processing}
use gno_ibc_relayer_api.Indexer.Events.{Setup, tick}
use gno_ibc_relayer_api.Indexer.Effects.{
  Grows-pure, Grows-attempt, Grows-statement, Grows-query, Grows-bind,
}
use gno_ibc_relayer_api.Indexer.Growth.{Grows-mark_processing}
use gno_ibc_relayer_api.Indexer.Handlers.{Grows-ignore}
use gno_ibc_relayer_api.Indexer.Passes.{
  Grows-get_detected_ids, Grows-queued_ids, Grows-mark_gone, Grows-compare_queue,
  Grows-sync_processing,
}
use gno_ibc_relayer_api.Indexer.Runs.{Grows-handle}
use gno_ibc_relayer_api.Indexer.Goroutines.{State, poller, sends, move, program, send}

-- The ids of the detected rows.
abbrev pub detected_ids : World → List ℕ
detected_ids w = map (λ r. r.id) (keep (λ r. r.status == status_detected) w.transfers)

-- Detected now, and when the poll read the bridges, and not in the queue when it read the queue.
abbrev pub is_marked : World → World → BridgeRecord → Bool
is_marked bridges queue r =
    r.status == status_detected
    && (in_ids (detected_ids bridges) r.id && not (in_ids (map (λ q. q.id) queue.queue) r.id))

-- The update of a poll that read the bridges and the queue in two worlds before.
abbrev pub marked : World → World → World → World
marked bridges queue w = record w {
  transfers = update (is_marked bridges queue) to_processing w.transfers;
}

-- What a poll has left after its first query.
rest_of : List ℕ → Tree (Unit {0})
rest_of ids = bind_tree (attempt_tree (Grows-compare_queue {b = false} ids).tree) (λ r. ret (ok tt))

-- What it has left after both.
last_of : List ℕ → Tree (Unit {0})
last_of ids = bind_tree (attempt_tree (Grows-mark_gone {b = false} ids).tree) (λ r. ret (ok tt))

abbrev update_of : List ℕ → World → World
update_of ids w = record w {
  transfers =
      update (λ r. in_ids ids r.id && r.status == status_detected) to_processing w.transfers;
}

nothing_marked : (w : World) → update_of [] w ≡ w
unfolding in_ids any
nothing_marked w =
    ap (λ rows. record w { transfers = rows })
      (update-none to_processing (λ r. r.status == status_detected) w.transfers)

last_of-sends :
    (ids : List ℕ) (w : World) → send false w (last_of ids) ≡ (ret (ok tt), update_of ids w)
unfolding last_of Grows-mark_gone Grows-mark_processing Grows-statement Grows-pure bind_tree
    attempt_tree
last_of-sends [] w = ap (λ v. (ret (ok tt), v)) (sym (nothing_marked w))
last_of-sends (i ∷ ids) w = refl

-- The queue's ids that a poll looks for.
abbrev looked_up : List ℕ → World → List ℕ
looked_up ids w = keep (in_ids ids) (map (λ q. q.id) w.queue)

rest_of-sends :
    (ids : List ℕ) (v w : World)
    → send false w (send false v (rest_of ids)).0
      ≡ (ret (ok tt), update_of (gone_of (looked_up ids v) ids) w)
unfolding rest_of last_of Grows-compare_queue Grows-queued_ids Grows-bind Grows-query
    Grows-statement Grows-pure bind_tree attempt_tree gone_of keep queued_ids
rest_of-sends [] v w = ap (λ u. (ret (ok tt), u)) (sym (nothing_marked w))
rest_of-sends (i ∷ ids) v w = last_of-sends (gone_of (looked_up (i ∷ ids) v) (i ∷ ids)) w

gone_marked :
    (ids : List ℕ) (v : World) (r : BridgeRecord)
    → (in_ids (gone_of (looked_up ids v) ids) r.id && r.status == status_detected) ≡ (
        r.status == status_detected
        && (in_ids ids r.id && not (in_ids (map (λ q. q.id) v.queue) r.id)))
unfolding gone_of
gone_marked ids v r = ground (
  arith,
  in_ids-keep (in_ids ids) (map (λ q. q.id) v.queue) r.id,
  in_ids-keep (λ j. not (in_ids (looked_up ids v) j)) ids r.id,
)

-- After one failure, and after none, what is left of an update is nothing.
last_of-ends :
    (ids : List ℕ) (fails : Bool) (w : World) → (send fails w (last_of ids)).0 ≡ ret (ok tt)
unfolding last_of Grows-mark_gone Grows-mark_processing Grows-statement Grows-pure bind_tree
    attempt_tree
last_of-ends [] fails w = refl
last_of-ends (i ∷ ids) true w = refl
last_of-ends (i ∷ ids) false w = refl

rest_of-ends :
    (ids : List ℕ) (fails again : Bool) (v w : World)
    → (send again w (send fails v (rest_of ids)).0).0 ≡ ret (ok tt)
unfolding rest_of last_of Grows-compare_queue Grows-queued_ids Grows-bind Grows-query
    Grows-statement Grows-pure bind_tree attempt_tree queued_ids
rest_of-ends [] fails again v w = refl
rest_of-ends (i ∷ ids) true again v w = refl
rest_of-ends (i ∷ ids) false again v w =
    last_of-ends (gone_of (looked_up (i ∷ ids) v) (i ∷ ids)) again w

module _ (pg : Postgres) (setup : Setup) where
  -- The poll's own three moves, each in the state that the one before left of its goroutine. The worlds and
  -- the other goroutines may have become anything between.
  program-first :
      (w : World) → (send false w (program pg setup tick tt)).0 ≡ rest_of (detected_ids w)
  unfolding rest_of Grows-handle Grows-ignore Grows-sync_processing Grows-get_detected_ids
      Grows-bind Grows-attempt Grows-query Grows-statement Grows-pure bind_tree attempt_tree
      get_detected_ids
  program-first w = refl

  program-failed : (w : World) → (send true w (program pg setup tick tt)).0 ≡ ret (ok tt)
  unfolding Grows-handle Grows-ignore Grows-sync_processing Grows-get_detected_ids Grows-bind
      Grows-attempt Grows-query Grows-statement Grows-pure bind_tree attempt_tree get_detected_ids
  program-failed w = refl

  -- A poll begins in `s`, and sends its statements in `s`, `u` and `v`; from one to the next anything but
  -- its own goroutine may change. If none fails, the poll is over, and the third has moved to processing
  -- exactly the bridges that are detected in `v`, were detected in `s`, and were not in the queue in
  -- `u`, and changed nothing else.
  pub poll-marks :
      (s u v : State)
      → s.threads.of_poller ≡ program pg setup tick tt
      → u.threads.of_poller ≡ (move pg setup (sends poller false) s).threads.of_poller
      → v.threads.of_poller ≡ (move pg setup (sends poller false) u).threads.of_poller
      → ((move pg setup (sends poller false) v).threads.of_poller ≡ ret (ok tt))
        × ((move pg setup (sends poller false) v).world ≡ marked s.world u.world v.world)
  unfolding move
  poll-marks s u v first second third =
      let sent : send false v.world v.threads.of_poller
          ≡ (ret (ok tt), marked s.world u.world v.world) =
        ap (send false v.world) (
          third
          ∙ ap (λ t. (send false u.world t).0)
              (second ∙ ap (λ t. (send false s.world t).0) first ∙ program-first s.world))
        ∙ rest_of-sends (detected_ids s.world) u.world v.world
        ∙ ap (λ rows. (ret (ok tt), record v.world { transfers = rows }))
            (update-congr _ _ to_processing v.world.transfers
              (λ r i. gone_marked (detected_ids s.world) u.world r)) in
      (ap (λ x. x.0) sent, ap (λ x. x.1) sent)

  -- A poll begins in `s`, and sends its statements in `s`, `u` and `v`; from one to the next anything but
  -- its own goroutine may change. Whichever of the three fail, the poll is over after them.
  pub poll-ends :
      (s u v : State) (f g h : Bool)
      → s.threads.of_poller ≡ program pg setup tick tt
      → u.threads.of_poller ≡ (move pg setup (sends poller f) s).threads.of_poller
      → v.threads.of_poller ≡ (move pg setup (sends poller g) u).threads.of_poller
      → (move pg setup (sends poller h) v).threads.of_poller ≡ ret (ok tt)
  unfolding move
  poll-ends s u v f g h first second third =
      ap (λ t. (send h v.world t).0)
        (third ∙ ap (λ t. (send g u.world t).0) (second ∙ ap (λ t. (send f s.world t).0) first))
      ∙ by_first f
    where
      by_first :
          (f : Bool)
          → (send h v.world (send g u.world (send f s.world (program pg setup tick tt)).0).0).0
            ≡ ret (ok tt)
      by_first true = ap (λ t. (send h v.world (send g u.world t).0).0) (program-failed s.world)
      by_first false =
          ap (λ t. (send h v.world (send g u.world t).0).0) (program-first s.world)
          ∙ rest_of-ends (detected_ids s.world) g h u.world v.world
