-- ===== src/Indexer/Items.antt =====
-- internal/indexer/parser.go: the raw JSON types, read as `json.Unmarshal` reads them.
use gno_ibc_relayer_api.Prelude.{Option, none, some, List, [], ◌∷◌}
use gno_ibc_relayer_api.Prelude.Int.{ℤ}
use gno_ibc_relayer_api.Prelude.Strings.{Bytes}
use gno_ibc_relayer_api.Json.{
  Json, Members, Raw, ◌>>=◌, members_of, slice_of, elements, string_at, int_at, struct_at, raw_at,
}

pub record TypedValue : Type 0 where
  pub tag : Bytes
  pub value : Raw

pub record PluginBody : Type 0 where
  pub plugin : Bytes
  pub message : TypedValue

pub record ChainEventBody : Type 0 where
  pub event : TypedValue
  pub height : Bytes
  pub tx_hash : Bytes
  pub block_number : ℤ

pub record PacketSendValue : Type 0 where
  pub packet_data : Bytes
  pub packet_hash : Bytes
  pub source_channel_id : ℤ
  pub destination_channel_id : ℤ
  pub source_connection_id : ℤ
  pub destination_connection_id : ℤ
  pub timeout_timestamp : ℤ

pub record FullEventPacketValue : Type 0 where
  pub content : Bytes
  pub source_channel_id : ℤ
  pub destination_channel_id : ℤ
  pub timeout_timestamp : ℤ
  pub packet_hash : Bytes

pub record WriteAckValue : Type 0 where
  pub channel_id : ℤ
  pub packet_hash : Bytes
  pub acknowledgement : Bytes

pub record PacketTimeoutFields : Type 0 where
  pub timeout_timestamp : ℤ
  pub src_channel_id : ℤ

-- An entry of the batches of a promise.
pub record BatchEntry : Type 0 where
  pub tag : Bytes
  pub timeout_timestamp : ℤ
  pub channel_id : ℤ

unfoldable pub typed_of : Members → Option TypedValue
typed_of ms = do tag ← string_at "@type" ms; some (record { tag = tag; value = raw_at "@value" ms })

unfoldable pub unmarshal_typed : Raw → Option TypedValue
unfolding typed_of
unmarshal_typed raw = do ms ← members_of raw; typed_of ms

unfoldable pub unmarshal_body : Raw → Option PluginBody
unfolding typed_of
unmarshal_body raw = do
  ms ← members_of raw
  plugin ← string_at "plugin" ms
  inner ← struct_at "message" ms
  message ← typed_of inner
  some (record { plugin = plugin; message = message })

unfoldable pub unmarshal_chain_event : Raw → Option ChainEventBody
unfolding typed_of
unmarshal_chain_event raw = do
  ms ← members_of raw
  inner ← struct_at "event" ms
  event ← typed_of inner
  height ← string_at "height" ms
  tx_hash ← string_at "tx_hash" ms
  block_number ← int_at "block_number" ms
  some (record { event = event; height = height; tx_hash = tx_hash; block_number = block_number })

unfoldable pub unmarshal_packet_send : Raw → Option PacketSendValue
unmarshal_packet_send raw = do
  ms ← members_of raw
  packet_data ← string_at "packet_data" ms
  packet_hash ← string_at "packet_hash" ms
  source ← int_at "source_channel_id" ms
  destination ← int_at "destination_channel_id" ms
  source_connection ← int_at "source_connection_id" ms
  destination_connection ← int_at "destination_connection_id" ms
  timeout ← int_at "timeout_timestamp" ms
  some (record {
    packet_data = packet_data;
    packet_hash = packet_hash;
    source_channel_id = source;
    destination_channel_id = destination;
    source_connection_id = source_connection;
    destination_connection_id = destination_connection;
    timeout_timestamp = timeout;
  })

unfoldable pub unmarshal_full_event : Raw → Option FullEventPacketValue
unmarshal_full_event raw = do
  ms ← members_of raw
  packet ← struct_at "packet" ms
  content ← string_at "data" packet
  source ← int_at "source_channel_id" packet
  destination ← int_at "destination_channel_id" packet
  timeout ← int_at "timeout_timestamp" packet
  packet_hash ← string_at "packet_hash" ms
  some (record {
    content = content;
    source_channel_id = source;
    destination_channel_id = destination;
    timeout_timestamp = timeout;
    packet_hash = packet_hash;
  })

unfoldable pub unmarshal_write_ack : Raw → Option WriteAckValue
unmarshal_write_ack raw = do
  ms ← members_of raw
  channel ← int_at "channel_id" ms
  packet_hash ← string_at "packet_hash" ms
  acknowledgement ← string_at "acknowledgement" ms
  some (record {
    channel_id = channel;
    packet_hash = packet_hash;
    acknowledgement = acknowledgement;
  })

unfoldable pub unmarshal_packet_timeout : Raw → Option PacketTimeoutFields
unmarshal_packet_timeout raw = do
  ms ← members_of raw
  packet ← struct_at "packet" ms
  source ← int_at "source_channel_id" packet
  timeout ← int_at "timeout_timestamp" packet
  some (record { timeout_timestamp = timeout; src_channel_id = source })

-- Every element of a slice, or the error of one.
unfoldable pub all_of {ℓ} : {A : Type ℓ} → (Json → Option A) → List Json → Option (List A)
all_of f [] = some []
all_of f (v ∷ vs) = do a ← f v; rest ← all_of f vs; some (a ∷ rest)

abbrev pub slice_raw : Raw → Option (List Json)
slice_raw raw = do vs ← slice_of raw; some (elements vs)

-- `json.Unmarshal(body.Message.Value, &items)`; there the text must be there.
unfoldable pub unmarshal_items : Raw → Option (List TypedValue)
unfolding all_of unmarshal_typed
unmarshal_items none = none
unmarshal_items (some v) = do vs ← slice_raw (some v); all_of (λ j. unmarshal_typed (some j)) vs

unfoldable pub batch_entry : Json → Option BatchEntry
batch_entry j = do
  ms ← members_of (some j)
  event ← struct_at "event" ms
  tag ← string_at "@type" event
  inner ← struct_at "@value" event
  packet ← struct_at "packet" inner
  timeout ← int_at "timeout_timestamp" packet
  source ← struct_at "source_channel" packet
  channel ← int_at "channel_id" source
  some (record { tag = tag; timeout_timestamp = timeout; channel_id = channel })

-- The batches of a promise, at receiver.@value.message.@value.batches.
unfoldable pub unmarshal_batches : Raw → Option (List (List BatchEntry))
unfolding all_of batch_entry
unmarshal_batches raw = do
  ms ← members_of raw
  receiver ← struct_at "receiver" ms
  received ← struct_at "@value" receiver
  message ← struct_at "message" received
  sent ← struct_at "@value" message
  batches ← slice_raw (raw_at "batches" sent)
  all_of (λ j. do entries ← slice_raw (some j); all_of batch_entry entries) batches
