-- ===== src/Seed/Filled.antt =====
-- cmd/seed/main.go: what the rows of a run without failures are like together.
use gno_ibc_relayer_api.Prelude.{
  ℕ, zero, suc, ◌+◌, ◌*◌, ◌≤◌, ◌<◌, ◌≡◌, ◌≢◌, refl, ap, subst, Bool, true, false, ◌||◌, List, [],
  ◌∷◌, ◌++◌, inl, inr, ◌⊎◌, arith, ◌==◌, if◌then◌else◌, All, any, keep, length, length-append,
}
use gno_ibc_relayer_api.Prelude.Strings.{str_eq, str_eq_refl}
use gno_ibc_relayer_api.Prelude.Membership.{any-none}
use gno_ibc_relayer_api.Db.Record.{BridgeRecord}
use gno_ibc_relayer_api.Db.World.{World, Result, ok}
use gno_ibc_relayer_api.Db.Table.{insert_row}
use gno_ibc_relayer_api.Db.Calm.{exec-quiet}
use gno_ibc_relayer_api.Db.Unique.{IsUniqueBy, append-IsUniqueBy}
use gno_ibc_relayer_api.Seed.Draws.{Libraries}
use gno_ibc_relayer_api.Seed.Rows.{target_address, sample_row}
use gno_ibc_relayer_api.Seed.Fill.{seed_rows, seed}
use gno_ibc_relayer_api.Seed.Sampled.{IsSample, sample_row-IsSample}

-- The target is the sender or the receiver of the row.
pub is_target : BridgeRecord → Bool
is_target r = str_eq r.from_address target_address || str_eq r.to_address target_address

-- The number of rows of the target.
abbrev pub count_target : List BridgeRecord → ℕ
count_target rows = length (keep is_target rows)

-- The rows of the first `n` rounds.
pub record IsFilled (n : ℕ) (rows : List BridgeRecord) : Type 0 where
  pub size : length rows ≡ n
  pub below : All (λ r. r.id < 80000000 + n * 1000) rows
  pub ids : IsUniqueBy (λ r. r.id) rows
  pub targets : (n ≤ count_target rows) ⊎ (20 ≤ count_target rows)

empty-IsFilled : IsFilled 0 []
empty-IsFilled = record { size = refl; below = tt; ids = tt; targets = inl (omega arith) }

keep-snoc :
    (p : BridgeRecord → Bool) (rows : List BridgeRecord) (r : BridgeRecord)
    → length (keep p (rows ++ r ∷ [])) ≡ length (keep p rows) + (if p r then 1 else 0)
unfolding keep
keep-snoc p [] r = ground arith
keep-snoc p (s ∷ rows) r = ground (arith, keep-snoc p rows r)

All-snoc :
    (P Q : BridgeRecord → Type 0) (rows : List BridgeRecord) (r : BridgeRecord)
    → ((s : BridgeRecord) → P s → Q s)
    → Q r
    → All P rows
    → All Q (rows ++ r ∷ [])
All-snoc P Q [] r f q h = (q, tt)
All-snoc P Q (s ∷ rows) r f q h = (f s h.0, All-snoc P Q rows r f q h.1)

All-map :
    (P Q : BridgeRecord → Type 0) (rows : List BridgeRecord)
    → ((s : BridgeRecord) → P s → Q s)
    → All P rows
    → All Q rows
All-map P Q [] f h = tt
All-map P Q (s ∷ rows) f h = (f s h.0, All-map P Q rows f h.1)

target_counts : (i : ℕ) (r : BridgeRecord) → IsSample i r → (20 ≤ i) ⊎ (is_target r ≡ true)
unfolding is_target
target_counts i r s = elim s.target [
  | inl late ↦ inl late
  | inr (inl e) ↦ inr (rw (e, str_eq_refl target_address) refl)
  | inr (inr e) ↦ inr (rw (e, str_eq_refl target_address) (ground arith))
]

-- The row of the next round has a new id, so its INSERT adds it.
next-IsFilled :
    (i : ℕ) (r : BridgeRecord) (rows : List BridgeRecord)
    → IsSample i r
    → IsFilled i rows
    → IsFilled (i + 1) (insert_row r rows)
unfolding insert_row
next-IsFilled i r rows s f =
    rw (insert_row, fresh)
      (record {
        size = omega (arith, length-append rows (r ∷ []), f.size);
        below =
            All-snoc (λ t. t.id < 80000000 + i * 1000) (λ t. t.id < 80000000 + (i + 1) * 1000) rows
              r (λ t h. omega (arith, h)) (omega (arith, s.id_range)) f.below;
        ids =
            append-IsUniqueBy (λ t. t.id) r rows
              (All-map (λ t. t.id < 80000000 + i * 1000) (λ t. t.id ≢ r.id) rows
                (λ t h e. omega (arith, h, e, s.id_range)) f.below)
              f.ids;
        targets = ground (arith, keep-snoc is_target rows r, target_counts i r s, f.targets);
      })
  where
    fresh : any (λ t. t.id == r.id) rows ≡ false
    fresh = (any-none (λ t. t.id == r.id) rows).1 (
        All-map (λ t. t.id < 80000000 + i * 1000) (λ t. (t.id == r.id) ≡ false) rows
          (λ t h. ground (arith, h, s.id_range)) f.below)

-- The run of an action has this result, on these transfers, and no failure is to come.
abbrev Fills : ℕ → ℕ → Result ℕ × World → Type 0
Fills n rounds (r, w) = (r ≡ ok n) × IsFilled rounds w.transfers × (w.faults ≡ [])

module _ (lib : Libraries) (now : ℕ) where
  seed_rows-Fills :
      (n i k inserted reported rounds : ℕ) (w : World)
      → reported ≡ inserted + n
      → rounds ≡ i + n
      → w.faults ≡ []
      → IsFilled i w.transfers
      → Fills reported rounds (seed_rows lib now n i k inserted w)
  unfolding seed_rows
  seed_rows-Fills zero i k inserted reported rounds w a b quiet f =
      (ap ok (omega (arith, a)), subst (λ m. IsFilled m w.transfers) (omega (arith, b)) f, quiet)
  seed_rows-Fills (suc n) i k inserted reported rounds w a b quiet f =
      rw (seed_rows, exec-quiet (insert_row (sample_row lib now i k).0) w quiet)
        (seed_rows-Fills n (i + 1) (sample_row lib now i k).1 (inserted + 1) reported rounds
          (record w { transfers = insert_row (sample_row lib now i k).0 w.transfers })
          (omega (arith, a)) (omega (arith, b)) quiet
          (next-IsFilled i (sample_row lib now i k).0 w.transfers (sample_row-IsSample lib now i k)
            f))

  -- After a truncation, without failures, 100 rows of distinct ids are inserted and reported, and at least
  -- 20 of them have the target address.
  pub seed-IsFilled :
      (w : World)
      → w.faults ≡ []
      → ((seed lib true now w).0 ≡ ok 100) × IsFilled 100 (seed lib true now w).1.transfers
  unfolding seed
  seed-IsFilled w quiet =
      rw (seed, exec-quiet (λ _. []) w quiet)
        (let (reported, filled, _) =
            seed_rows-Fills 100 0 0 0 100 100 (record w { transfers = [] }) refl refl quiet
              empty-IsFilled in
          (reported, filled))
