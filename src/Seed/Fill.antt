-- ===== src/Seed/Fill.antt =====
-- cmd/seed/main.go: the loop of `main` that inserts the sample rows.
-- A configuration that does not load and a pool that cannot be made end the program before it.
use gno_ibc_relayer_api.Prelude.{ℕ, zero, suc, ◌+◌, Bool, [], if◌then◌else◌}
use gno_ibc_relayer_api.Db.World.{M, ok, err, crash, ◌>>=◌, ◌>>◌, pure, attempt}
use gno_ibc_relayer_api.Db.Table.{insert_row}
use gno_ibc_relayer_api.Db.Bridge.{exec}
use gno_ibc_relayer_api.Seed.Draws.{Libraries}
use gno_ibc_relayer_api.Seed.Rows.{sample_row}

module _ (lib : Libraries) where
  -- The rounds from `i` on, with `n` left, `k` numbers drawn and `inserted` rows counted. A row whose INSERT
  -- fails is passed over.
  unfoldable pub seed_rows : ℕ → ℕ → ℕ → ℕ → ℕ → M ℕ
  unfolding exec insert_row
  seed_rows now zero i k inserted = pure inserted
  seed_rows now (suc n) i k inserted = do
    r ← attempt (exec (insert_row (sample_row lib now i k).0))
    elim r [
      | ok _ ↦ seed_rows now n (i + 1) (sample_row lib now i k).1 (inserted + 1)
      | err _ ↦ seed_rows now n (i + 1) (sample_row lib now i k).1 inserted
      | crash ↦ pure inserted
    ]

  -- The number of rows that `main` reports as inserted.
  unfoldable pub seed : Bool → ℕ → M ℕ
  unfolding seed_rows
  seed truncate now = do if truncate then exec (λ _. []) else pure tt; seed_rows now 100 0 0 0
