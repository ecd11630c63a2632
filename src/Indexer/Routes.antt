-- ===== src/Indexer/Routes.antt =====
-- internal/indexer/parser.go: every bridge that `Parse` returns is a new record of a configured route.
use gno_ibc_relayer_api.Prelude.{
  ℕ, ◌≡◌, refl, ◌⊎◌, Bool, true, false, ◌||◌, none, List, [], ◌∷◌, arith, if◌then◌else◌, ◌==◌,
}
use gno_ibc_relayer_api.Prelude.Int.{ℤ, eq_ℤ_iff}
use gno_ibc_relayer_api.Prelude.Strings.{Bytes, str_eq_iff, is_empty}
use gno_ibc_relayer_api.Json.{Raw}
use gno_ibc_relayer_api.Config.{ChannelChain}
use gno_ibc_relayer_api.Abi.Outcome.{Outcome, ok, err, panic}
use gno_ibc_relayer_api.Abi.Zkgm.{
  TokenOrder, ZkgmPacket, decode_zkgm_packet, decode_token_order, opcode_token_order,
}
use gno_ibc_relayer_api.Db.Record.{BridgeRecord, status_detected}
use gno_ibc_relayer_api.Indexer.Items.{ChainEventBody, PacketSendValue, unmarshal_typed}
use gno_ibc_relayer_api.Indexer.Render.{chain_from_plugin, is_gno_plugin}
use gno_ibc_relayer_api.Indexer.Fields.{
  Parsed, found, absent, failed, crashed, ◌>>=◌, or_absent, or_failed, is_tag, call_body,
}
use gno_ibc_relayer_api.Indexer.Parser.{
  find_dst_chain, find_chains_by_source_channel, with_order, record_order, record_packet,
  decode_packet_data, new_bridge, build_bridge, parse_packet_send, parse_packet_recv, packet_of,
  parse_event, parse,
}

-- The configured routes list this one.
abbrev pub IsRouted : List ChannelChain → Bytes → Bytes → ℤ → Type 0
IsRouted [] src dst channel = ⊥
IsRouted (cc ∷ rest) src dst channel =
    ((cc.src_chain_id ≡ src) × (cc.dst_chain_id ≡ dst) × (cc.src_channel_id ≡ channel))
    ⊎ IsRouted rest src dst channel

-- What every found value meets.
abbrev pub Finds : {A : Type 0} → (A → Type 0) → Parsed A → Type 0
Finds P (found a) = P a
Finds P absent = Unit
Finds P failed = Unit
Finds P crashed = Unit

pub Finds-bind :
    {A B : Type 0} (P : B → Type 0) (m : Parsed A) (f : A → Parsed B)
    → ((a : A) → Finds P (f a))
    → Finds P (m >>= f)
Finds-bind P (found a) f h = h a
Finds-bind P absent f h = tt
Finds-bind P failed f h = tt
Finds-bind P crashed f h = tt

pub Finds-eq : {A : Type 0} (P : A → Type 0) (o : Parsed A) {a : A} → Finds P o → o ≡ found a → P a
Finds-eq P o h e = rw e at h

Finds-if :
    {A : Type 0} (P : A → Type 0) (b : Bool) (x y : Parsed A)
    → (b ≡ true → Finds P x)
    → (b ≡ false → Finds P y)
    → Finds P (if b then x else y)
Finds-if P true x y h k = h refl
Finds-if P false x y h k = k refl

-- A detected bridge of a configured route, under its row's id and time.
pub record IsNewBridge (chains : List ChannelChain) (i created_at : ℕ) (t : BridgeRecord)
    : Type 0 where
  pub same_id : t.id ≡ i
  pub same_time : t.created_at ≡ created_at
  pub detected : t.status ≡ status_detected
  pub not_done : t.done_at ≡ none
  pub no_error : t.err_msg ≡ none
  pub no_tx_in : t.tx_in ≡ none
  pub has_source : is_empty t.src_chain_id ≡ false
  pub routed : IsRouted chains t.src_chain_id t.dst_chain_id t.src_channel_id

module _ (chains : List ChannelChain) (i created_at : ℕ) where
  abbrev New : BridgeRecord → Type 0
  New t = IsNewBridge chains i created_at t

  record_order-New :
      (t : BridgeRecord) (o : Outcome TokenOrder) → New t → Finds New (record_order t o)
  unfolding with_order
  record_order-New t (ok order) n = record {
    same_id = n.same_id;
    same_time = n.same_time;
    detected = n.detected;
    not_done = n.not_done;
    no_error = n.no_error;
    no_tx_in = n.no_tx_in;
    has_source = n.has_source;
    routed = n.routed;
  }
  record_order-New t (err e) n = n
  record_order-New t panic n = tt

  record_packet-New :
      (t : BridgeRecord) (o : Outcome ZkgmPacket) → New t → Finds New (record_packet t o)
  record_packet-New t (ok zkgm) n =
      Finds-if New (zkgm.instruction.opcode == opcode_token_order) _ _
        (λ _. record_order-New t (decode_token_order zkgm) n) (λ _. n)
  record_packet-New t (err e) n = n
  record_packet-New t panic n = tt

  decode_packet_data-New :
      (t : BridgeRecord) (hex_data : Bytes) → New t → Finds New (decode_packet_data t hex_data)
  unfolding decode_packet_data
  decode_packet_data-New t hex_data n =
      Finds-if New (is_empty hex_data) _ _ (λ _. n)
        (λ _. record_packet-New t (decode_zkgm_packet hex_data) n)

  build_bridge-New :
      (ev : PacketSendValue) (chain_event : ChainEventBody) (src dst : Bytes) (is_gno : Bool)
      → is_empty src ≡ false
      → IsRouted chains src dst ev.source_channel_id
      → Finds New (build_bridge i ev chain_event src dst is_gno created_at)
  unfolding build_bridge
  build_bridge-New ev chain_event src dst is_gno e r =
      decode_packet_data-New (new_bridge i ev chain_event src dst is_gno created_at) ev.packet_data
        (record {
          same_id = refl;
          same_time = refl;
          detected = refl;
          not_done = refl;
          no_error = refl;
          no_tx_in = refl;
          has_source = e;
          routed = r;
        })

find_dst_chain-IsRouted :
    (chains : List ChannelChain) (src : Bytes) (channel : ℤ)
    → is_empty (find_dst_chain chains src channel) ≡ false
    → IsRouted chains src (find_dst_chain chains src channel) channel
unfolding find_dst_chain
find_dst_chain-IsRouted [] src channel e = cc
find_dst_chain-IsRouted (c ∷ rest) src channel e = ground (
  arith,
  str_eq_iff c.src_chain_id src,
  eq_ℤ_iff c.src_channel_id channel,
  find_dst_chain-IsRouted rest src channel,
)

find_chains-IsRouted :
    (chains : List ChannelChain) (channel : ℤ)
    → is_empty (find_chains_by_source_channel chains channel).0 ≡ false
    → IsRouted chains
        (find_chains_by_source_channel chains channel).0
        (find_chains_by_source_channel chains channel).1
        channel
unfolding find_chains_by_source_channel
find_chains-IsRouted [] channel e = cc
find_chains-IsRouted (c ∷ rest) channel e =
    ground (arith, eq_ℤ_iff c.src_channel_id channel, find_chains-IsRouted rest channel)

module _ (chains : List ChannelChain) (i created_at : ℕ) where
  parse_packet_send-New :
      (plugin : Bytes) (chain_event : ChainEventBody) (ev : PacketSendValue)
      → Finds
          (λ t. IsNewBridge chains i created_at t)
          (parse_packet_send i plugin chain_event ev chains created_at)
  unfolding parse_packet_send
  parse_packet_send-New plugin chain_event ev =
      let src = chain_from_plugin plugin in
      let dst = find_dst_chain chains src ev.source_channel_id in
      Finds-if (λ t. IsNewBridge chains i created_at t) (is_empty src || is_empty dst) _ _ (λ _. tt)
        λ e.
          build_bridge-New chains i created_at ev chain_event src dst (is_gno_plugin plugin)
            (ground arith) (find_dst_chain-IsRouted chains src ev.source_channel_id (ground arith))

  parse_packet_recv-New :
      (plugin : Bytes) (chain_event : ChainEventBody) (ev : PacketSendValue)
      → Finds
          (λ t. IsNewBridge chains i created_at t)
          (parse_packet_recv i plugin chain_event ev chains created_at)
  unfolding parse_packet_recv
  parse_packet_recv-New plugin chain_event ev =
      let route = find_chains_by_source_channel chains ev.source_channel_id in
      Finds-if (λ t. IsNewBridge chains i created_at t) (is_empty route.0) _ _ (λ _. tt)
        λ e.
          build_bridge-New chains i created_at ev chain_event route.0 route.1 (is_gno_plugin plugin)
            e (find_chains-IsRouted chains ev.source_channel_id e)

  parse_event-New :
      (plugin : Bytes) (packet : ChainEventBody × PacketSendValue)
      → Finds
          (λ t. IsNewBridge chains i created_at t)
          (parse_event i plugin packet chains created_at)
  unfolding parse_event
  parse_event-New plugin (chain_event, ev) =
      let P : BridgeRecord → Type 0 = λ t. IsNewBridge chains i created_at t in
      Finds-if P (is_tag "packet_send" chain_event.event.tag) _ _
        (λ _. parse_packet_send-New plugin chain_event ev)
        λ _.
          Finds-if P (is_tag "packet_recv" chain_event.event.tag) _ _
            (λ _. parse_packet_recv-New plugin chain_event ev) (λ _. tt)

  pub parse-Finds :
      (raw : Raw) → Finds (λ t. IsNewBridge chains i created_at t) (parse i raw created_at chains)
  unfolding parse
  parse-Finds raw =
      let P : BridgeRecord → Type 0 = λ t. IsNewBridge chains i created_at t in
      Finds-bind P (or_failed (unmarshal_typed raw)) _ λ outer.
        Finds-if P (is_tag "call" outer.tag) _ _
          (λ _.
            Finds-bind P (or_absent (call_body outer)) _ λ body.
              Finds-bind P (packet_of body) _ (λ packet. parse_event-New body.plugin packet))
          (λ _. tt)

-- A bridge that `Parse` returns has the id and the time of its queue row, is detected, has no done_at,
-- err_msg or tx_in, and has a source chain; source, destination and channel are those of a configured
-- route. So no packet outside the configured routes is tracked.
pub parse-IsNewBridge :
    (chains : List ChannelChain) (i created_at : ℕ) (raw : Raw) (t : BridgeRecord)
    → parse i raw created_at chains ≡ found t
    → IsNewBridge chains i created_at t
parse-IsNewBridge chains i created_at raw t e =
    Finds-eq (λ t. IsNewBridge chains i created_at t) (parse i raw created_at chains)
      (parse-Finds chains i created_at raw) e
