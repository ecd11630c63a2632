-- ===== src/Seed/Sampled.antt =====
-- cmd/seed/main.go: what every sample row is like, whatever numbers are drawn.
use gno_ibc_relayer_api.Prelude.{
  ℕ, ◌+◌, ◌*◌, ◌≤◌, ◌<◌, ◌≡◌, ◌≢◌, refl, Bool, true, false, none, some, inl, inr, ◌⊎◌, arith, ltb,
  ◌==◌, Bool-cases,
}
use gno_ibc_relayer_api.Prelude.Strings.{Bytes}
use gno_ibc_relayer_api.Db.Record.{BridgeRecord}
use gno_ibc_relayer_api.Seed.Draws.{Libraries, draw, text_at}
use gno_ibc_relayer_api.Seed.Rows.{
  target_address, second, messages, rolled_status, draw_done_at, draw_err_msg, draw_parties,
  sample_row,
}

-- A row of round `i` in a state that the indexer could have left.
pub record IsSample (i : ℕ) (r : BridgeRecord) : Type 0 where
  pub id_range : (80000000 + i * 1000 ≤ r.id) × (r.id < 80000000 + i * 1000 + 999)
  pub settled : (r.status ≡ 0) ⊎ ((r.status ≡ 2) ⊎ (r.status ≡ 3))
  pub done :
      ((r.status ≢ 2) × (r.done_at ≡ none))
      ⊎ ((t : ℕ) × (r.status ≡ 2)
          × (r.done_at ≡ some t)
          × (r.created_at + 10 * second ≤ t)
          × (t < r.created_at + 310 * second))
  pub failure :
      ((r.status ≢ 3) × (r.err_msg ≡ none)) ⊎ ((m : Bytes) × (r.status ≡ 3) × (r.err_msg ≡ some m))
  pub target : (20 ≤ i) ⊎ ((r.from_address ≡ target_address) ⊎ (r.to_address ≡ target_address))

module _ (lib : Libraries) where
  done_at-range :
      (status created_at k : ℕ)
      → ((status ≢ 2) × ((draw_done_at lib status created_at k).0 ≡ none))
        ⊎ ((t : ℕ) × (status ≡ 2)
            × ((draw_done_at lib status created_at k).0 ≡ some t)
            × (created_at + 10 * second ≤ t)
            × (t < created_at + 310 * second))
  unfolding draw_done_at draw
  done_at-range status created_at k = elim (Bool-cases (status == 2)) [
    | inl e ↦ inr (
      created_at + (lib.intn k 300 + 10) * second,
      ground arith,
      rw e refl,
      omega arith,
      omega (arith, lib.intn_below k 300 (omega arith)),
    )
    | inr e ↦ inl (ground arith, rw e refl)
  ]

  err_msg-present :
      (status k : ℕ)
      → ((status ≢ 3) × ((draw_err_msg lib status k).0 ≡ none))
        ⊎ ((m : Bytes) × (status ≡ 3) × ((draw_err_msg lib status k).0 ≡ some m))
  unfolding draw_err_msg draw
  err_msg-present status k = elim (Bool-cases (status == 3)) [
    | inl e ↦ inr (text_at messages (lib.intn k 3), ground arith, rw e refl)
    | inr e ↦ inl (ground arith, rw e refl)
  ]

  parties-target :
      (i : ℕ) (gno_to_eth : Bool) (k : ℕ)
      → (20 ≤ i)
        ⊎ (((draw_parties lib i gno_to_eth k).0.0 ≡ target_address)
            ⊎ ((draw_parties lib i gno_to_eth k).0.1 ≡ target_address))
  unfolding draw_parties
  parties-target i true k = elim (Bool-cases (ltb i 20)) [
    | inl e ↦ inr (inl (rw e refl))
    | inr e ↦ inl (ground arith)
  ]
  parties-target i false k = elim (Bool-cases (ltb i 20)) [
    | inl e ↦ inr (inr (rw e refl))
    | inr e ↦ inl (ground arith)
  ]

  rolled_status-settled :
      (roll : ℕ) → (rolled_status roll ≡ 0) ⊎ ((rolled_status roll ≡ 2) ⊎ (rolled_status roll ≡ 3))
  unfolding rolled_status
  rolled_status-settled roll = ground arith

  -- Whatever numbers are drawn, a sample row has an id of its round, is detected, done or failed, has a
  -- done_at between 10 and 309 seconds after its creation exactly if it is done, an err_msg exactly if it is
  -- failed, and in the first 20 rounds the target address as sender or receiver.
  pub sample_row-IsSample : (now i k : ℕ) → IsSample i (sample_row lib now i k).0
  unfolding sample_row draw
  sample_row-IsSample now i k = record {
    id_range = (omega arith, omega (arith, lib.intn_below k 999 (omega arith)));
    settled = search rolled_status-settled;
    done = search done_at-range;
    failure = search err_msg-present;
    target = search parties-target;
  }
