-- ===== src/Seed/Rows.antt =====
-- cmd/seed/main.go: a sample row.
-- Times are nanoseconds since the epoch; the clock is later than the third day of 1970.
use gno_ibc_relayer_api.Prelude.{
  ℕ, ◌+◌, ◌-◌, ◌*◌, ◌^◌, Bool, true, false, Option, none, some, List, [], ◌∷◌, ◌++◌, ltb, ◌==◌,
  if◌then◌else◌,
}
use gno_ibc_relayer_api.Prelude.Int.{pos}
use gno_ibc_relayer_api.Prelude.Strings.{Bytes, codes}
use gno_ibc_relayer_api.Db.Record.{BridgeRecord, status_detected, status_done, status_failed}
use gno_ibc_relayer_api.Seed.Draws.{
  Libraries, Draw, ◌>>=◌, pure, text_at, draw, rand_hex, rand_tx_hash, rand_amount,
}

abbrev pub target_address : Bytes
target_address = codes "g1jg8mtutu9khhfwc4nxmuhcpftf0pajdhfvsqf5"

abbrev pub gno_addresses : List Bytes
gno_addresses =
    codes "g1us8428u2a5satrlxzagqqa5m6vmuze025anjlr"
    ∷ codes "g1u7y667z64x2h7vc6fmpcprgey4ck233jaww9zq"
    ∷ codes "g14fclnpgzexnap4xqk4nwcxh5we74y6eypjwds5"
    ∷ codes "g1manfred42lqcl8rke8z601scx53q8q87jkn4ph"
    ∷ codes "g1f4v282mwyhu29afke4vq5r2xzcm6z3ftnugcnv"
    ∷ codes "g15gdm49ktawvkrl88jadqpucng37yxutucuwaef"
    ∷ codes "g1k2lg9r9kwfzfgggfxr96sk5kkqmqdnqkr8ufr7"
    ∷ codes "g1n4yvwnv77frq2ccuw27dmtjkd7u8p6htcpvnxj"
    ∷ []

abbrev pub eth_addresses : List Bytes
eth_addresses =
    codes "0xf4ad3b02d44fa88371ef8faa232f789068b5f56b"
    ∷ codes "0x7fed1d819109fb7a095137bf867abe61db36c99c"
    ∷ codes "0x3c44cdddb6a900fa2b585dd299e03d12fa4293bc"
    ∷ codes "0x90f79bf6eb2c4f870365e785982e1f101e93b906"
    ∷ codes "0x15d34aaf54267db7d7c367839aaf71a00a2c6a65"
    ∷ codes "0x9965507d1a55bcc2695c58ba16fb37d819b0a4dc"
    ∷ codes "0x976ea74026e726554db657fa54763abd0c3a0aa9"
    ∷ codes "0x14dc79964da2c08b23698b3d3cc7ca32193d9955"
    ∷ []

abbrev pub gno_token : Bytes
gno_token = codes "ugnot"

abbrev pub eth_token : Bytes
eth_token = codes "0x7f5c764cbc14f9669b88837ca1490cca17c31607"

abbrev pub messages : List Bytes
messages =
    codes
      "error in voyager-client-update-plugin-state-lens/state-lens/ics23/ics23: error in state/ibc-union/union-testnet-10: client `39` not found"
    ∷ codes
        "error in voyager-client-update-plugin-state-lens/state-lens/ics23/mpt: error in state/ibc-union/union-testnet-10: client `4` not found"
    ∷ codes "timeout waiting for packet receipt on destination chain"
    ∷ []

abbrev pub second : ℕ
second = 10 ^ 9

abbrev pub hour : ℕ
hour = 3600 * 10 ^ 9

-- The switch on `statusRoll`.
unfoldable pub rolled_status : ℕ → ℕ
rolled_status roll =
    if ltb roll 1 then status_detected else if ltb roll 5 then status_failed else status_done

module _ (lib : Libraries) where
  unfoldable pub draw_done_at : ℕ → ℕ → Draw (Option ℕ)
  unfolding draw
  draw_done_at status created_at =
      if status == 2
      then (do n ← draw lib 300; pure (some (created_at + (n + 10) * second)))
      else pure none

  unfoldable pub draw_err_msg : ℕ → Draw (Option Bytes)
  unfolding draw text_at
  draw_err_msg status =
      if status == 3 then (do n ← draw lib 3; pure (some (text_at messages n))) else pure none

  unfoldable pub draw_address : List Bytes → Draw Bytes
  unfolding draw text_at
  draw_address addresses = do n ← draw lib 8; pure (text_at addresses n)

  -- The sender and the receiver of row `i`.
  unfoldable pub draw_parties : ℕ → Bool → Draw (Bytes × Bytes)
  unfolding draw_address
  draw_parties i true =
      if ltb i 20
      then (do to ← draw_address eth_addresses; pure (target_address, to))
      else (do from ← draw_address gno_addresses; to ← draw_address eth_addresses; pure (from, to))
  draw_parties i false =
      if ltb i 20
      then (do from ← draw_address eth_addresses; pure (from, target_address))
      else (do from ← draw_address eth_addresses; to ← draw_address gno_addresses; pure (from, to))

  -- The row of round `i`; the INSERT writes no tx_in.
  unfoldable pub sample_row : ℕ → ℕ → Draw BridgeRecord
  unfolding draw rand_hex draw_done_at draw_err_msg draw_parties rand_tx_hash rand_amount
      rolled_status
  sample_row now i = do
    n ← draw lib 999
    digits ← rand_hex lib 64
    h ← draw lib 5000
    hours ← draw lib 72
    direction ← draw lib 2
    let gno_to_eth = direction == 0
    tx_hash ← rand_tx_hash lib gno_to_eth
    roll ← draw lib 100
    let status = rolled_status roll
    let created_at = now - hours * hour
    done_at ← draw_done_at status created_at
    err_msg ← draw_err_msg status
    parties ← draw_parties i gno_to_eth
    amount ← rand_amount lib
    pure (record {
      id = 80000000 + i * 1000 + n;
      packet_hash = codes "0x" ++ digits;
      src_chain_id = if gno_to_eth then codes "dev" else codes "11155111";
      dst_chain_id = if gno_to_eth then codes "11155111" else codes "dev";
      src_channel_id = if gno_to_eth then pos 2 else pos 28;
      dst_channel_id = if gno_to_eth then pos 28 else pos 2;
      from_address = parties.0;
      to_address = parties.1;
      base_token = if gno_to_eth then gno_token else eth_token;
      base_amount = amount;
      quote_token = if gno_to_eth then eth_token else gno_token;
      quote_amount = amount;
      height = pos (80000 + h);
      timeout_timestamp = pos (now + 72 * hour);
      status = status;
      created_at = created_at;
      done_at = done_at;
      err_msg = err_msg;
      tx_out = tx_hash;
      tx_in = none;
    })
