-- ===== src/Indexer/Tests.antt =====
-- The theorems about internal/indexer at concrete runs.
use Prim.Native.String.{String}
use gno_ibc_relayer_api.Strconv.{parse_int}
use gno_ibc_relayer_api.Prelude.{arith, ◌≡◌, refl, true, false, none, some, List, [], ◌∷◌}
use gno_ibc_relayer_api.Prelude.Int.{pos}
use gno_ibc_relayer_api.Prelude.Strings.{codes, str_eq}
use gno_ibc_relayer_api.Json.{Json, string, number, object, end, member, raw_member, lower}
use gno_ibc_relayer_api.Config.{ChannelChain}
use gno_ibc_relayer_api.Db.Record.{BridgeRecord}
use gno_ibc_relayer_api.Db.World.{World}
use gno_ibc_relayer_api.Db.Sample.{sample}
use gno_ibc_relayer_api.Db.Advance.{Advances}
use gno_ibc_relayer_api.Indexer.Items.{
  unmarshal_typed, unmarshal_body, unmarshal_chain_event, unmarshal_packet_send,
}
use gno_ibc_relayer_api.Indexer.Render.{
  chain_from_plugin, after_last_slash, is_gno_plugin, format_tx_hash, has_prefix,
}
use gno_ibc_relayer_api.Indexer.Fields.{found, call_body}
use gno_ibc_relayer_api.Indexer.Parser.{parse, find_dst_chain, height_of}
use gno_ibc_relayer_api.Indexer.Routes.{IsNewBridge, parse-IsNewBridge}
use gno_ibc_relayer_api.Indexer.Events.{
  Setup, Event, run, tick, queue_lost, done_notified, failed_notified,
}
use gno_ibc_relayer_api.Indexer.Agrees.{find_dst_chain_agrees}
use gno_ibc_relayer_api.Config.{DbConfig, Config, find_dst_chain as config_route}
use gno_ibc_relayer_api.Indexer.Rows.{handle_done-orders}
use gno_ibc_relayer_api.Indexer.Marks.{
  handle_done_catch_up, handle_done_notification, mark_timeouts, mark_packet_timeout_failed,
  handle_event, item_fields, refunded,
}
use gno_ibc_relayer_api.Indexer.Fields.{
  parse_item_fields, parse_packet_timeouts, call_fields, multicall_timeouts, collect_timeouts,
}
use gno_ibc_relayer_api.Indexer.Items.{unmarshal_items, unmarshal_packet_timeout, all_of}
use gno_ibc_relayer_api.Db.World.{DoneRow, ok, statement}
use gno_ibc_relayer_api.Db.Bridge.{find_by_timeout_and_channel, mark_failed, exec_update}
use gno_ibc_relayer_api.Db.Table.{update}
use gno_ibc_relayer_api.Json.{array, cons, nil, elements}
use gno_ibc_relayer_api.Prelude.{keep, any}
use gno_ibc_relayer_api.Indexer.Runs.{run-Advances, run-IsTable}
use gno_ibc_relayer_api.Db.Unique.{IsTable}

abbrev typed : String → Json → Json
typed tag v = object (member (codes "@type") (string (codes tag)) (member (codes "@value") v end))

abbrev plugin_item : String → String → Json → Json
plugin_item plugin tag v = typed "call" (
    typed "plugin" (
      object (
        member (codes "plugin") (string (codes plugin))
          (member (codes "message") (typed tag v) end))))

-- A packet_send on channel 2 of the gno chain `dev`.
abbrev send_item : Json
send_item = plugin_item "voyager-event-source-plugin-gno/dev" "make_chain_event" (
    object (
      member (codes "event")
        (typed "packet_send" (
          object (
            member (codes "packet_hash") (string (codes "0xab")) (
              member (codes "source_channel_id") (number (pos 2))
                (member (codes "timeout_timestamp") (number (pos 77)) end)))))
        (member (codes "height") (string (codes "12")) end)))

abbrev pub routes : List ChannelChain
routes =
    record {
      src_chain_id = codes "dev";
      dst_chain_id = codes "11155111";
      src_channel_id = pos 2;
      dst_channel_id = pos 28;
    }
    ∷ []

abbrev pub sent : BridgeRecord
sent = record {
  id = 5;
  packet_hash = codes "0xab";
  src_chain_id = codes "dev";
  dst_chain_id = codes "11155111";
  src_channel_id = pos 2;
  dst_channel_id = pos 0;
  from_address = [];
  to_address = [];
  base_token = [];
  base_amount = [];
  quote_token = [];
  quote_amount = [];
  height = pos 12;
  timeout_timestamp = pos 77;
  status = 0;
  created_at = 900;
  done_at = none;
  err_msg = none;
  tx_out = [];
  tx_in = none;
}

unfoldable pub parser_runs : Unit {0}
unfolding parse unmarshal_typed unmarshal_body unmarshal_chain_event unmarshal_packet_send
    raw_member lower str_eq call_body chain_from_plugin after_last_slash is_gno_plugin has_prefix
    format_tx_hash find_dst_chain height_of parse_int
parser_runs = tt

unfoldable pub timeout_runs : Unit {0}
unfolding handle_done_catch_up parse_item_fields parse_packet_timeouts call_fields
    multicall_timeouts collect_timeouts unmarshal_items unmarshal_packet_timeout all_of elements
    mark_timeouts mark_packet_timeout_failed find_by_timeout_and_channel mark_failed exec_update
    update statement handle_event item_fields keep any
timeout_runs = tt

parses_send : parse 5 (some send_item) 900 routes ≡ found sent
unfolding parser_runs
parses_send = refl

parse-IsNewBridge_example : IsNewBridge routes 5 900 sent
parse-IsNewBridge_example = parse-IsNewBridge routes 5 900 (some send_item) sent parses_send

abbrev pub setup : Setup
setup = record { batch_size = pos 10; chains = routes }

abbrev failed_bridge : World
failed_bridge = record {
  transfers = record sent { status = 3; err_msg = some (codes "timeout") } ∷ [];
  cursors = [];
  queue = record { id = 5; item = some send_item; created_at = 900 } ∷ [];
  done = [];
  failed = [];
  faults = false ∷ true ∷ [];
}

abbrev events : List Event
events = tick ∷ queue_lost ∷ failed_notified (codes "5") ∷ done_notified (codes "x") ∷ []

run-Advances_example : Advances failed_bridge (run sample setup events failed_bridge).1
run-Advances_example = run-Advances sample setup events failed_bridge (tt, (tt, (tt, (tt, tt))))

-- Two rows, one of them about to be marked and the other to be inserted again.
abbrev two_bridges : World
two_bridges = record failed_bridge {
  transfers = record sent { status = 3 } ∷ record sent { id = 6; packet_hash = codes "0xcd" } ∷ [];
}

two_bridges-IsTable : IsTable two_bridges.transfers
two_bridges-IsTable = ((((λ e. omega arith), tt), (tt, tt)), (((λ e. ground arith), tt), (tt, tt)))

run-IsTable_example : IsTable (run sample setup events two_bridges).1.transfers
run-IsTable_example =
    run-IsTable sample setup events two_bridges (tt, (tt, (tt, (tt, tt)))) two_bridges-IsTable

-- A multicall with one timeout, of the packet that `sent` tracks.
abbrev pub timeout_row : DoneRow
timeout_row = record {
  id = 8;
  item = some (
      plugin_item "voyager-transaction-plugin-gno/dev" "submit_multicall" (
        array (
          cons
            (typed "packet_timeout" (
              object (
                member (codes "packet")
                  (object (
                    member (codes "source_channel_id") (number (pos 2))
                      (member (codes "timeout_timestamp") (number (pos 77)) end)))
                  end)))
            nil)));
  parents = [];
  created_at = 950;
}

abbrev pub detected_bridge : World
detected_bridge = record failed_bridge { transfers = sent ∷ []; faults = [] }

-- The packet of the timeout is found, and its bridge failed.
timeout_fails : handle_done_catch_up sample timeout_row detected_bridge ≡ (
  ok tt,
  record detected_bridge { transfers = record sent { status = 3; err_msg = some refunded } ∷ [] },
)
unfolding parser_runs timeout_runs
timeout_fails = refl

handle_done-orders_example :
    handle_done_notification sample timeout_row detected_bridge
    ≡ handle_done_catch_up sample timeout_row detected_bridge
handle_done-orders_example = handle_done-orders sample timeout_row detected_bridge

abbrev no_database : DbConfig
no_database = record {
  host = [];
  port = pos 5432;
  user = [];
  password = [];
  dbname = [];
  sslmode = [];
}

abbrev config : Config
config = record {
  server = record { port = pos 8080 };
  relayer_db = no_database;
  bridge_db = no_database;
  indexer = record { poll_interval_sec = pos 5; batch_size = pos 100 };
  channel_chains = routes;
}

find_dst_chain_agrees_example :
    config_route config (codes "dev") (pos 2) ≡ find_dst_chain routes (codes "dev") (pos 2)
find_dst_chain_agrees_example = find_dst_chain_agrees config (codes "dev") (pos 2)
