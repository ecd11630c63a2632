-- ===== src/Indexer/Parser.antt =====
-- internal/indexer/parser.go: `Parse`, which makes a bridge record of a sent packet.
use gno_ibc_relayer_api.Prelude.{ℕ, Bool, ◌&&◌, ◌||◌, none, List, [], ◌∷◌, if◌then◌else◌, ◌==◌}
use gno_ibc_relayer_api.Prelude.Int.{ℤ, pos, eq_ℤ}
use gno_ibc_relayer_api.Prelude.Strings.{Bytes, str_eq, is_empty}
use gno_ibc_relayer_api.Json.{Raw}
use gno_ibc_relayer_api.Strconv.{parse_int, decimal}
use gno_ibc_relayer_api.Config.{ChannelChain}
use gno_ibc_relayer_api.Abi.Outcome.{Outcome, ok, err, panic}
use gno_ibc_relayer_api.Abi.Zkgm.{
  TokenOrder, ZkgmPacket, decode_zkgm_packet, decode_token_order, opcode_token_order,
}
use gno_ibc_relayer_api.Db.Record.{BridgeRecord, status_detected}
use gno_ibc_relayer_api.Indexer.Items.{
  PluginBody, ChainEventBody, PacketSendValue, FullEventPacketValue, unmarshal_typed,
  unmarshal_chain_event, unmarshal_packet_send, unmarshal_full_event,
}
use gno_ibc_relayer_api.Indexer.Render.{
  chain_from_plugin, is_gno_plugin, format_tx_hash, render_bytes,
}
use gno_ibc_relayer_api.Indexer.Fields.{
  Parsed, absent, call_body, crashed, found, is_tag, or_absent, or_failed, ◌>>=◌,
}

-- `findDstChain`
unfoldable pub find_dst_chain : List ChannelChain → Bytes → ℤ → Bytes
find_dst_chain [] chain channel = []
find_dst_chain (cc ∷ rest) chain channel =
    if str_eq cc.src_chain_id chain && eq_ℤ cc.src_channel_id channel
    then cc.dst_chain_id
    else find_dst_chain rest chain channel

-- `findChainsBySourceChannel`
unfoldable pub find_chains_by_source_channel : List ChannelChain → ℤ → Bytes × Bytes
find_chains_by_source_channel [] channel = ([], [])
find_chains_by_source_channel (cc ∷ rest) channel =
    if eq_ℤ cc.src_channel_id channel
    then (cc.src_chain_id, cc.dst_chain_id)
    else find_chains_by_source_channel rest channel

-- The assignments of `decodePacketData`.
unfoldable pub with_order : BridgeRecord → TokenOrder → BridgeRecord
with_order t order = record t {
  from_address = render_bytes order.sender;
  to_address = render_bytes order.receiver;
  base_token = render_bytes order.base_token;
  base_amount = decimal order.base_amount;
  quote_token = render_bytes order.quote_token;
  quote_amount = decimal order.quote_amount;
}

abbrev pub record_order : BridgeRecord → Outcome TokenOrder → Parsed BridgeRecord
record_order t (ok order) = found (with_order t order)
record_order t (err e) = found t
record_order t panic = crashed

abbrev pub record_packet : BridgeRecord → Outcome ZkgmPacket → Parsed BridgeRecord
record_packet t (ok zkgm) =
    if zkgm.instruction.opcode == opcode_token_order
    then record_order t (decode_token_order zkgm)
    else found t
record_packet t (err e) = found t
record_packet t panic = crashed

-- `decodePacketData`, whose error the caller drops: the record is left as it was.
unfoldable pub decode_packet_data : BridgeRecord → Bytes → Parsed BridgeRecord
decode_packet_data t hex_data =
    if is_empty hex_data then found t else record_packet t (decode_zkgm_packet hex_data)

unfoldable pub height_of : ChainEventBody → ℤ
height_of chain_event =
    let height = (parse_int chain_event.height).0 in
    if eq_ℤ height (pos 0) then chain_event.block_number else height

-- The record that `buildBridge` makes, before its packet data are decoded.
unfoldable pub new_bridge :
    ℕ → PacketSendValue → ChainEventBody → Bytes → Bytes → Bool → ℕ → BridgeRecord
new_bridge i ev chain_event src dst is_gno created_at = record {
  id = i;
  packet_hash = ev.packet_hash;
  src_chain_id = src;
  dst_chain_id = dst;
  src_channel_id = ev.source_channel_id;
  dst_channel_id = ev.destination_channel_id;
  from_address = [];
  to_address = [];
  base_token = [];
  base_amount = [];
  quote_token = [];
  quote_amount = [];
  height = height_of chain_event;
  timeout_timestamp = ev.timeout_timestamp;
  status = status_detected;
  created_at = created_at;
  done_at = none;
  err_msg = none;
  tx_out = format_tx_hash chain_event.tx_hash is_gno;
  tx_in = none;
}

unfoldable pub build_bridge :
    ℕ → PacketSendValue → ChainEventBody → Bytes → Bytes → Bool → ℕ → Parsed BridgeRecord
unfolding decode_packet_data new_bridge
build_bridge i ev chain_event src dst is_gno created_at =
    decode_packet_data (new_bridge i ev chain_event src dst is_gno created_at) ev.packet_data

unfoldable pub parse_packet_send :
    ℕ → Bytes → ChainEventBody → PacketSendValue → List ChannelChain → ℕ → Parsed BridgeRecord
unfolding build_bridge
parse_packet_send i plugin chain_event ev chains created_at =
    let src = chain_from_plugin plugin in
    let dst = find_dst_chain chains src ev.source_channel_id in
    if is_empty src || is_empty dst
    then absent
    else build_bridge i ev chain_event src dst (is_gno_plugin plugin) created_at

unfoldable pub parse_packet_recv :
    ℕ → Bytes → ChainEventBody → PacketSendValue → List ChannelChain → ℕ → Parsed BridgeRecord
unfolding build_bridge
parse_packet_recv i plugin chain_event ev chains created_at =
    let route = find_chains_by_source_channel chains ev.source_channel_id in
    if is_empty route.0
    then absent
    else build_bridge i ev chain_event route.0 route.1 (is_gno_plugin plugin) created_at

-- The packet of a make_full_event, under the names of a make_chain_event.
abbrev pub flattened : FullEventPacketValue → PacketSendValue
flattened full = record {
  packet_data = full.content;
  packet_hash = full.packet_hash;
  source_channel_id = full.source_channel_id;
  destination_channel_id = full.destination_channel_id;
  source_connection_id = pos 0;
  destination_connection_id = pos 0;
  timeout_timestamp = full.timeout_timestamp;
}

-- The switch of `Parse` on the type of the plugin's message.
unfoldable pub packet_of : PluginBody → Parsed (ChainEventBody × PacketSendValue)
packet_of body =
    if is_tag "make_chain_event" body.message.tag
    then (do
      chain_event ← or_failed (unmarshal_chain_event body.message.value)
      if is_tag "packet_send" chain_event.event.tag || is_tag "packet_recv" chain_event.event.tag
          then (do
            ev ← or_failed (unmarshal_packet_send chain_event.event.value)
            found (chain_event, ev))
          else absent)
    else if is_tag "make_full_event" body.message.tag
    then (do
      chain_event ← or_failed (unmarshal_chain_event body.message.value)
      if is_tag "packet_send" chain_event.event.tag || is_tag "packet_recv" chain_event.event.tag
          then (do
            full ← or_failed (unmarshal_full_event chain_event.event.value)
            found (chain_event, flattened full))
          else absent)
    else absent

-- The switch of `Parse` on the type of the event.
unfoldable pub parse_event :
    ℕ → Bytes → ChainEventBody × PacketSendValue → List ChannelChain → ℕ → Parsed BridgeRecord
unfolding parse_packet_send parse_packet_recv
parse_event i plugin (chain_event, ev) chains created_at =
    if is_tag "packet_send" chain_event.event.tag
    then parse_packet_send i plugin chain_event ev chains created_at
    else if is_tag "packet_recv" chain_event.event.tag
    then parse_packet_recv i plugin chain_event ev chains created_at
    else absent

unfoldable pub parse : ℕ → Raw → ℕ → List ChannelChain → Parsed BridgeRecord
unfolding parse_event packet_of
parse i raw created_at chains = do
  outer ← or_failed (unmarshal_typed raw)
  if is_tag "call" outer.tag
      then (do
        body ← or_absent (call_body outer)
        packet ← packet_of body
        parse_event i body.plugin packet chains created_at)
      else absent
