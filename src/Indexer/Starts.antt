-- ===== src/Indexer/Starts.antt =====
-- internal/indexer/indexer.go: what the start of `Run` establishes.
use gno_ibc_relayer_api.Db.Statements.{result_cases}
use gno_ibc_relayer_api.Prelude.{arith, ℕ, ◌≡◌, sym, subst, List, ◌∷◌, All}
use gno_ibc_relayer_api.Db.World.{World, ok, M, ◌>>◌}
use gno_ibc_relayer_api.Db.Table.{Postgres, dedupe_rows}
use gno_ibc_relayer_api.Db.Bridge.{dedupe_by_packet_hash}
use gno_ibc_relayer_api.Db.Unique.{IsUniqueBy, IsTable}
use gno_ibc_relayer_api.Db.Dedupe.{dedupe_rows-IsTable}
use gno_ibc_relayer_api.Indexer.Marks.{ignore}
use gno_ibc_relayer_api.Indexer.Sync.{sync_queue, sync_done, sync_failed}
use gno_ibc_relayer_api.Prelude.{true}
use gno_ibc_relayer_api.Indexer.Effects.{Grows, Grows-bind, Grows-Effect}
use gno_ibc_relayer_api.Indexer.Handlers.{marks}
use gno_ibc_relayer_api.Indexer.Passes.{Grows-sync_queue, Grows-sync_done, Grows-sync_failed}
use gno_ibc_relayer_api.Indexer.Events.{Setup, Event, start, startup, handle, run}
use gno_ibc_relayer_api.Indexer.Runs.{IsLater, Grows-run}

dedupe-transfers :
    (n : ℕ) (w w' : World)
    → dedupe_by_packet_hash w ≡ (ok n, w')
    → w'.transfers ≡ dedupe_rows w.transfers
unfolding dedupe_by_packet_hash
dedupe-transfers n w w' =
    result_cases (λ x. x ≡ (ok n, w') → w'.transfers ≡ dedupe_rows w.transfers) _ w
      (λ l e h. ground arith) (λ l h. ground arith)

module _ (pg : Postgres) (setup : Setup) where
  -- The catch-up passes of the start.
  abbrev passes : M (Unit {0})
  passes = do
    ignore (sync_queue pg setup.batch_size setup.chains)
    ignore (sync_done pg)
    ignore (sync_failed pg setup.batch_size)

  Grows-passes : Grows true passes
  Grows-passes = search (marks, Grows-sync_queue, Grows-sync_done, Grows-sync_failed)

  -- If the deduplication of the start succeeds, on a table of distinct ids, then over the run that follows,
  -- with any events and failures, no two rows have one id or one packet hash.
  pub run-start :
      (es : List Event) (w w' : World) (n : ℕ)
      → All IsLater es
      → IsUniqueBy (λ r. r.id) w.transfers
      → dedupe_by_packet_hash w ≡ (ok n, w')
      → IsTable (run pg setup (start ∷ es) w).1.transfers
  unfolding run handle startup
  run-start es w w' n later ids h =
      rw (run, handle, startup, h)
        ((Grows-Effect true _ (Grows-bind passes _ Grows-passes (λ _. Grows-run pg setup es later))
            w').table
          (subst IsTable (sym (dedupe-transfers n w w' h)) (dedupe_rows-IsTable w.transfers ids)))
