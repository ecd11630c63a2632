-- ===== src/Seed/Tests.antt =====
-- The theorems about cmd/seed/main.go at concrete random numbers.
use gno_ibc_relayer_api.Prelude.{◌-◌, ◌*◌, ◌≡◌, refl, true, [], arith}
use gno_ibc_relayer_api.Db.World.{World, ok}
use gno_ibc_relayer_api.Seed.Draws.{Libraries}
use gno_ibc_relayer_api.Seed.Rows.{hour, sample_row}
use gno_ibc_relayer_api.Seed.Fill.{seed}
use gno_ibc_relayer_api.Seed.Sampled.{IsSample, sample_row-IsSample}
use gno_ibc_relayer_api.Seed.Filled.{IsFilled, seed-IsFilled}

-- Every draw is the largest number below its bound.
abbrev largest : Libraries
largest = record { intn = λ k n. n - 1; intn_below = λ k n h. omega arith; base64 = λ b. b }

abbrev empty_world : World
empty_world = record {
  transfers = [];
  cursors = [];
  queue = [];
  done = [];
  failed = [];
  faults = [];
}

sample_row-IsSample_example : IsSample 19 (sample_row largest (500000 * hour) 19 7).0
sample_row-IsSample_example = sample_row-IsSample largest (500000 * hour) 19 7

seed-IsFilled_example :
    ((seed largest true (500000 * hour) empty_world).0 ≡ ok 100)
    × IsFilled 100 (seed largest true (500000 * hour) empty_world).1.transfers
seed-IsFilled_example = seed-IsFilled largest (500000 * hour) empty_world refl
