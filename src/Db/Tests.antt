-- ===== src/Db/Tests.antt =====
-- The theorems about internal/db/bridge.go at concrete tables.
use gno_ibc_relayer_api.Prelude.{ℕ, ◌+◌, ◌≤◌, ◌≡◌, refl, none, [], ◌∷◌, arith, any, keep}
use gno_ibc_relayer_api.Prelude.Int.{pos}
use gno_ibc_relayer_api.Prelude.Strings.{Bytes, codes, str_eq}
use gno_ibc_relayer_api.Db.Record.{BridgeRecord, status_priority}
use gno_ibc_relayer_api.Db.World.{World, ok, statement}
use gno_ibc_relayer_api.Db.Bridge.{
  ListFilter, StatusSummary, list, listed, count_status, count_recent_by_status,
}
use gno_ibc_relayer_api.Db.Sample.{sample, arrange, place}
use gno_ibc_relayer_api.Prelude.{List, inl, ◌↔◌}
use gno_ibc_relayer_api.Prelude.Membership.{In}
use gno_ibc_relayer_api.Db.Table.{dedupe_rows, row_number, precedes, same_hash}
use gno_ibc_relayer_api.Db.Unique.{IsUniqueBy}
use gno_ibc_relayer_api.Db.Dedupe.{IsBestOfHash, In-dedupe_rows, dedupe_rows-covers}
use gno_ibc_relayer_api.Db.Listed.{IsPage, count_recent_by_status-total, list-IsPage}

-- A row by its id, its sender, its status and its time.
abbrev row : ℕ → Bytes → ℕ → ℕ → BridgeRecord
row i sender status created_at = record {
  id = i;
  packet_hash = i ∷ [];
  src_chain_id = codes "dev";
  dst_chain_id = codes "11155111";
  src_channel_id = pos 2;
  dst_channel_id = pos 0;
  from_address = sender;
  to_address = codes "bob";
  base_token = [];
  base_amount = [];
  quote_token = [];
  quote_amount = [];
  height = pos 12;
  timeout_timestamp = pos 77;
  status = status;
  created_at = created_at;
  done_at = none;
  err_msg = none;
  tx_out = [];
  tx_in = none;
}

abbrev three_rows : World
three_rows = record {
  transfers =
      row 1 (codes "amy") 2 100 ∷ row 2 (codes "eve") 0 200 ∷ row 3 (codes "amy") 3 300 ∷ [];
  cursors = [];
  queue = [];
  done = [];
  failed = [];
  faults = [];
}

-- All that a run of a SELECT computes with.
unfoldable pub runs : Unit {0}
unfolding list listed count_status count_recent_by_status arrange place statement any keep str_eq
runs = tt

abbrev two_recent : StatusSummary
two_recent = record { total = 2; detected = 1; processing = 0; succeeded = 0; failed = 1 }

counts_two : count_recent_by_status sample 2 three_rows ≡ (ok two_recent, three_rows)
unfolding runs
counts_two = refl

count_recent_by_status-total_example :
    (two_recent.total ≤ 2)
    × (two_recent.total
        ≡ two_recent.detected + two_recent.processing + (two_recent.succeeded + two_recent.failed))
count_recent_by_status-total_example =
    count_recent_by_status-total sample 2 three_rows three_rows two_recent (omega arith) counts_two

abbrev of_amy : ListFilter
of_amy = record { address = codes "amy"; order = codes "desc"; limit = pos 1; offset = pos 1 }

lists_one : list sample of_amy three_rows ≡ (ok (row 1 (codes "amy") 2 100 ∷ []), three_rows)
unfolding runs
lists_one = refl

list-IsPage_example : IsPage of_amy (row 1 (codes "amy") 2 100 ∷ [])
list-IsPage_example =
    list-IsPage sample of_amy three_rows three_rows (row 1 (codes "amy") 2 100 ∷ []) refl lists_one

-- Three rows of one packet, done, failed and done, and a row of another.
abbrev recorded_twice : List BridgeRecord
recorded_twice =
    record (row 4 (codes "amy") 3 100) { packet_hash = codes "0xab" }
    ∷ record (row 5 (codes "amy") 2 100) { packet_hash = codes "0xab" }
    ∷ record (row 6 (codes "amy") 2 100) { packet_hash = codes "0xab" }
    ∷ row 7 (codes "eve") 0 100
    ∷ []

recorded_twice-ids : IsUniqueBy (λ t. t.id) recorded_twice
recorded_twice-ids = (
  ((λ e. omega arith), ((λ e. omega arith), ((λ e. omega arith), tt))),
  (((λ e. omega arith), ((λ e. omega arith), tt)), (((λ e. omega arith), tt), (tt, tt))),
)

In-dedupe_rows_example :
    In
      (record (row 5 (codes "amy") 2 100) { packet_hash = codes "0xab" })
      (dedupe_rows recorded_twice)
    ↔ (In (record (row 5 (codes "amy") 2 100) { packet_hash = codes "0xab" }) recorded_twice
        × IsBestOfHash recorded_twice
            (record (row 5 (codes "amy") 2 100) { packet_hash = codes "0xab" }))
In-dedupe_rows_example = In-dedupe_rows recorded_twice _ recorded_twice-ids

-- Of the rows of `0xab` the first done one is left, with the row of the other packet.
dedupes_twice :
    dedupe_rows recorded_twice
    ≡ record (row 5 (codes "amy") 2 100) { packet_hash = codes "0xab" }
      ∷ row 7 (codes "eve") 0 100
      ∷ []
unfolding dedupe_rows row_number precedes status_priority keep any str_eq same_hash
dedupes_twice = refl

dedupe_rows-covers_example :
    (m : BridgeRecord) × In m (dedupe_rows recorded_twice) × (m.packet_hash ≡ codes "0xab")
dedupe_rows-covers_example =
    dedupe_rows-covers recorded_twice
      (record (row 4 (codes "amy") 3 100) { packet_hash = codes "0xab" }) recorded_twice-ids
      (inl refl)
