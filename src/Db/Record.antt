-- ===== src/Db/Record.antt =====
-- internal/db/bridge.go: the bridge record and its status.
-- Times are nanoseconds since the epoch. Row ids come from a sequence, so they are natural numbers.
use gno_ibc_relayer_api.Prelude.{ℕ, Option, ◌==◌, if◌then◌else◌}
use gno_ibc_relayer_api.Prelude.Int.{ℤ}
use gno_ibc_relayer_api.Prelude.Strings.{Bytes}

abbrev pub status_detected : ℕ
status_detected = 0

abbrev pub status_processing : ℕ
status_processing = 1

abbrev pub status_done : ℕ
status_done = 2

abbrev pub status_failed : ℕ
status_failed = 3

pub record BridgeRecord : Type 0 where
  pub id : ℕ
  pub packet_hash : Bytes
  pub src_chain_id : Bytes
  pub dst_chain_id : Bytes
  pub src_channel_id : ℤ
  pub dst_channel_id : ℤ
  pub from_address : Bytes
  pub to_address : Bytes
  pub base_token : Bytes
  pub base_amount : Bytes
  pub quote_token : Bytes
  pub quote_amount : Bytes
  pub height : ℤ
  pub timeout_timestamp : ℤ
  pub status : ℕ
  pub created_at : ℕ
  pub done_at : Option ℕ
  pub err_msg : Option Bytes
  pub tx_out : Bytes
  pub tx_in : Option Bytes

unfoldable pub status_priority : ℕ → ℕ
status_priority status =
    if status == status_done
    then 0
    else if status == status_failed
    then 1
    else if status == status_processing
    then 2
    else 3
