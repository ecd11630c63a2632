-- ===== src/Indexer/Fields.antt =====
-- internal/indexer/parser.go: `ParseItemFields` and `ParsePacketTimeouts`.
use Prim.Native.String.{String}
use gno_ibc_relayer_api.Prelude.{
  Bool, true, false, ◌||◌, Option, none, some, List, [], ◌∷◌, if◌then◌else◌,
}
use gno_ibc_relayer_api.Prelude.Int.{ℤ, pos, eq_ℤ}
use gno_ibc_relayer_api.Prelude.Strings.{Bytes, codes, str_eq, is_empty}
use gno_ibc_relayer_api.Json.{Raw}
use gno_ibc_relayer_api.Abi.Outcome.{Outcome, ok, err, panic}
use gno_ibc_relayer_api.Abi.Zkgm.{Ack, success, decode_ack}
use gno_ibc_relayer_api.Indexer.Items.{
  TypedValue, PluginBody, ChainEventBody, PacketTimeoutFields, BatchEntry, unmarshal_typed,
  unmarshal_body, unmarshal_chain_event, unmarshal_packet_send, unmarshal_write_ack,
  unmarshal_packet_timeout, unmarshal_items, unmarshal_batches,
}
use gno_ibc_relayer_api.Indexer.Render.{is_gno_plugin, format_tx_hash, render_bytes}

-- A parse finds a value, finds none (a nil result), fails with an error, or panics.
pub data Parsed (A : Type 0) : Type 0 where
  found : A → Parsed A
  absent failed crashed : Parsed A

infixl 5 ◌>>=◌
abbrev pub ◌>>=◌ : {A B : Type 0} → Parsed A → (A → Parsed B) → Parsed B
found a >>= f = f a
absent >>= f = absent
failed >>= f = failed
crashed >>= f = crashed

-- `if err != nil { return nil }`
abbrev pub or_absent : {A : Type 0} → Option A → Parsed A
or_absent none = absent
or_absent (some a) = found a

-- `if err != nil { return nil, fmt.Errorf(…) }`
abbrev pub or_failed : {A : Type 0} → Option A → Parsed A
or_failed none = failed
or_failed (some a) = found a

abbrev pub is_tag : String → Bytes → Bool
is_tag s t = str_eq t (codes s)

pub record ItemFields : Type 0 where
  pub event_type : Bytes
  pub timeout_timestamp : ℤ
  pub src_channel_id : ℤ
  pub packet_hash : Bytes
  pub tx_hash : Bytes
  pub ack_success : Bool
  pub ack_error : Bytes

-- `decodeAckOutcome`
unfoldable pub ack_outcome : Outcome Ack → Parsed (Bool × Bytes)
ack_outcome (ok a) = if success a then found (true, []) else found (false, render_bytes a.inner_ack)
ack_outcome (err e) = found (true, [])
ack_outcome panic = crashed

unfoldable pub decode_ack_outcome : Bytes → Parsed (Bool × Bytes)
unfolding ack_outcome
decode_ack_outcome hex_ack =
    if is_empty hex_ack then found (true, []) else ack_outcome (decode_ack hex_ack)

-- The plugin body of an item of type `call`.
unfoldable pub call_body : TypedValue → Option PluginBody
call_body outer = elim (unmarshal_typed outer.value) [
  | none ↦ none
  | some call ↦ if is_tag "plugin" call.tag then unmarshal_body call.value else none
]

-- The fields of a write_ack event.
unfoldable pub ack_fields : ChainEventBody → Bool → Parsed ItemFields
ack_fields chain_event is_gno = do
  ack ← or_absent (unmarshal_write_ack chain_event.event.value)
  outcome ← decode_ack_outcome ack.acknowledgement
  found (record {
    event_type = chain_event.event.tag;
    timeout_timestamp = pos 0;
    src_channel_id = pos 0;
    packet_hash = ack.packet_hash;
    tx_hash = format_tx_hash chain_event.tx_hash is_gno;
    ack_success = outcome.0;
    ack_error = outcome.1;
  })

-- The fields of a packet_send or packet_recv event.
unfoldable pub send_fields : ChainEventBody → Bool → Parsed ItemFields
send_fields chain_event is_gno = do
  ev ← or_absent (unmarshal_packet_send chain_event.event.value)
  found (record {
    event_type = chain_event.event.tag;
    timeout_timestamp = ev.timeout_timestamp;
    src_channel_id = ev.source_channel_id;
    packet_hash = ev.packet_hash;
    tx_hash = format_tx_hash chain_event.tx_hash is_gno;
    ack_success = false;
    ack_error = [];
  })

-- The case `call` of `ParseItemFields`, by the type of the plugin's message.
unfoldable pub call_fields : PluginBody → Parsed ItemFields
unfolding ack_fields send_fields
call_fields body =
    let is_gno = is_gno_plugin body.plugin in
    if is_tag "make_full_event" body.message.tag
    then (do
      chain_event ← or_absent (unmarshal_chain_event body.message.value)
      if is_tag "write_ack" chain_event.event.tag then ack_fields chain_event is_gno else absent)
    else if is_tag "make_chain_event" body.message.tag
    then (do
      chain_event ← or_absent (unmarshal_chain_event body.message.value)
      if is_tag "write_ack" chain_event.event.tag
          then ack_fields chain_event is_gno
          else if is_tag "packet_send" chain_event.event.tag
              || is_tag "packet_recv" chain_event.event.tag
          then send_fields chain_event is_gno
          else absent)
    else absent

-- The entry that the loops over the batches return: the first with a timeout.
unfoldable pub first_timeout : List BatchEntry → Option BatchEntry
first_timeout [] = none
first_timeout (e ∷ es) = if eq_ℤ e.timeout_timestamp (pos 0) then first_timeout es else some e

unfoldable pub first_of_batches : List (List BatchEntry) → Option BatchEntry
unfolding first_timeout
first_of_batches [] = none
first_of_batches (b ∷ bs) = elim (first_timeout b) [ some e ↦ some e | none ↦ first_of_batches bs ]

unfoldable pub promise_fields : Raw → Parsed ItemFields
unfolding first_of_batches
promise_fields raw = do
  batches ← or_absent (unmarshal_batches raw)
  e ← or_absent (first_of_batches batches)
  found (record {
    event_type = e.tag;
    timeout_timestamp = e.timeout_timestamp;
    src_channel_id = e.channel_id;
    packet_hash = [];
    tx_hash = [];
    ack_success = false;
    ack_error = [];
  })

unfoldable pub parse_item_fields : Raw → Parsed ItemFields
unfolding call_fields promise_fields
parse_item_fields raw = do
  outer ← or_absent (unmarshal_typed raw)
  if is_tag "call" outer.tag
      then (do body ← or_absent (call_body outer); call_fields body)
      else if is_tag "promise" outer.tag
      then promise_fields outer.value
      else absent

-- The loop of `ParsePacketTimeouts`: datagrams of another type, or that cannot be read, are skipped.
unfoldable pub collect_timeouts : List TypedValue → List PacketTimeoutFields
collect_timeouts [] = []
collect_timeouts (item ∷ items) =
    let rest = collect_timeouts items in
    if is_tag "packet_timeout" item.tag
    then elim (unmarshal_packet_timeout item.value) [ none ↦ rest | some pt ↦ pt ∷ rest ]
    else rest

unfoldable pub multicall_timeouts : Option PluginBody → List PacketTimeoutFields
unfolding collect_timeouts
multicall_timeouts none = []
multicall_timeouts (some body) =
    if is_tag "submit_multicall" body.message.tag
    then elim (unmarshal_items body.message.value) [
      | none ↦ []
      | some items ↦ collect_timeouts items
    ]
    else []

unfoldable pub parse_packet_timeouts : Raw → List PacketTimeoutFields
unfolding multicall_timeouts
parse_packet_timeouts raw = elim (unmarshal_typed raw) [
  | none ↦ []
  | some outer ↦ if is_tag "call" outer.tag then multicall_timeouts (call_body outer) else []
]
