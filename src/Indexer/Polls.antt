-- ===== src/Indexer/Polls.antt =====
-- internal/indexer/sync.go: a poll is one update of the transfers table.
use gno_ibc_relayer_api.Prelude.{
  ℕ, ◌≡◌, refl, sym, ap, subst, ◌∙◌, Bool, true, false, not, ◌&&◌, List, [], ◌∷◌, map, inl, inr,
  arith, ◌==◌, any, keep, Bool-cases,
}
use gno_ibc_relayer_api.Prelude.Membership.{In}
use gno_ibc_relayer_api.Db.Record.{BridgeRecord, status_detected, status_processing}
use gno_ibc_relayer_api.Db.World.{World, Result, ok}
use gno_ibc_relayer_api.Db.Table.{update, in_ids}
use gno_ibc_relayer_api.Db.Bridge.{get_detected_ids, mark_processing}
use gno_ibc_relayer_api.Db.Calm.{exec-quiet, query-quiet}
use gno_ibc_relayer_api.Indexer.Batches.{queued_ids}
use gno_ibc_relayer_api.Indexer.Sync.{mark_gone, gone_of, compare_queue, sync_processing}

pub in_ids-keep : (p : ℕ → Bool) (xs : List ℕ) (i : ℕ) → in_ids (keep p xs) i ≡ (in_ids xs i && p i)
unfolding in_ids keep any
in_ids-keep p [] i = refl
in_ids-keep p (j ∷ xs) i = elim (Bool-cases (j == i)) [
  | inl e ↦ let same : j ≡ i = ground arith in ground (arith, in_ids-keep p xs i, ap p same)
  | inr e ↦ ground (arith, in_ids-keep p xs i)
]

pub update-congr :
    (p q : BridgeRecord → Bool) (f : BridgeRecord → BridgeRecord) (rows : List BridgeRecord)
    → ((r : BridgeRecord) → In r rows → p r ≡ q r)
    → update p f rows ≡ update q f rows
unfolding update
update-congr p q f [] h = refl
update-congr p q f (r ∷ rows) h =
    rw (update, h r (inl refl), update-congr p q f rows (λ s i. h s (inr i))) refl

pub update-none :
    (f : BridgeRecord → BridgeRecord) (p : BridgeRecord → Bool) (rows : List BridgeRecord)
    → update (λ r. false && p r) f rows ≡ rows
unfolding update
update-none f p [] = refl
update-none f p (r ∷ rows) = ap (λ rest. r ∷ rest) (update-none f p rows)

detected : BridgeRecord → Bool
detected r = r.status == status_detected

-- The ids of the detected rows.
detected_ids : List BridgeRecord → List ℕ
detected_ids rows = map (λ r. r.id) (keep detected rows)

in_ids-detected :
    (rows : List BridgeRecord) (r : BridgeRecord)
    → In r rows
    → detected r ≡ true
    → in_ids (detected_ids rows) r.id ≡ true
unfolding in_ids keep any detected_ids
in_ids-detected [] r i h = absurd i
in_ids-detected (s ∷ rows) r (inl e) h =
    let here : detected s ≡ true = subst (λ t. detected t ≡ true) e h in
    let same : s.id ≡ r.id = sym (ap (λ t. t.id) e) in ground (arith, here, same)
in_ids-detected (s ∷ rows) r (inr i) h = ground (arith, in_ids-detected rows r i h)

-- A bridge that is detected and that the queue does not hold.
unfoldable pub is_gone : List ℕ → BridgeRecord → Bool
is_gone queued r = r.status == status_detected && not (in_ids queued r.id)

-- Moving a row to processing.
abbrev pub to_processing : BridgeRecord → BridgeRecord
to_processing r = record r { status = status_processing }

-- The rows that are marked, by the two queries, are those that are gone.
marked_rows :
    (queue : List ℕ) (rows : List BridgeRecord) (r : BridgeRecord)
    → In r rows
    → (in_ids (gone_of (keep (in_ids (detected_ids rows)) queue) (detected_ids rows)) r.id
        && r.status == status_detected)
      ≡ is_gone queue r
unfolding gone_of is_gone detected
marked_rows queue rows r i = ground (
  arith,
  in_ids-keep (in_ids (detected_ids rows)) queue r.id,
  in_ids-keep (λ j. not (in_ids (keep (in_ids (detected_ids rows)) queue) j)) (detected_ids rows)
      r.id,
  in_ids-detected rows r i,
)

-- The world with the detected rows of the ids moved to processing.
abbrev moved : (BridgeRecord → Bool) → World → World
moved p w = record w { transfers = update p to_processing w.transfers }

abbrev of_ids : List ℕ → BridgeRecord → Bool
of_ids ids r = in_ids ids r.id && r.status == status_detected

mark_gone-moved :
    (ids : List ℕ) (w : World)
    → w.faults ≡ []
    → ◌≡◌ {A = Result (Unit {0}) × World} (mark_gone ids w) (ok tt, moved (of_ids ids) w)
unfolding mark_gone mark_processing in_ids any
mark_gone-moved [] w quiet =
    ap (λ rows. (ok tt, record w { transfers = rows }))
      (sym (update-none to_processing (λ r. r.status == status_detected) w.transfers))
mark_gone-moved (i ∷ ids) w quiet = exec-quiet _ w quiet

compare_queue-moved :
    (ids : List ℕ) (w : World)
    → w.faults ≡ []
    → ◌≡◌ {A = Result (Unit {0}) × World}
        (compare_queue ids w)
        (ok tt, moved (of_ids (gone_of (keep (in_ids ids) (map (λ r. r.id) w.queue)) ids)) w)
unfolding compare_queue gone_of queued_ids keep
compare_queue-moved [] w quiet = mark_gone-moved [] w quiet
compare_queue-moved (i ∷ ids) w quiet =
    rw (compare_queue, query-quiet (λ v. keep (in_ids (i ∷ ids)) (map (λ r. r.id) v.queue)) w quiet)
      (mark_gone-moved _ w quiet)

-- Without failures, a poll succeeds, and is the one update that moves every detected bridge whose id
-- the queue does not hold to processing, with nothing else changed.
pub sync_processing-update :
    (w : World)
    → w.faults ≡ []
    → ◌≡◌ {A = Result (Unit {0}) × World} (sync_processing w) (
      ok tt,
      record w { transfers = update (is_gone (map (λ r. r.id) w.queue)) to_processing w.transfers },
    )
unfolding sync_processing get_detected_ids detected_ids detected
sync_processing-update w quiet =
    rw (sync_processing, query-quiet (λ v. detected_ids v.transfers) w quiet)
      (compare_queue-moved (detected_ids w.transfers) w quiet
        ∙ ap (λ rows. (ok tt, record w { transfers = rows }))
            (update-congr _ _ to_processing w.transfers
              (marked_rows (map (λ r. r.id) w.queue) w.transfers)))
