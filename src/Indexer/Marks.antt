-- ===== src/Indexer/Marks.antt =====
-- internal/indexer/listener.go and sync.go: how a row of the relayer's tables changes the bridges.
-- Log lines are dropped. An error that is only logged ends the handling of its row.
use gno_ibc_relayer_api.Prelude.{
  ℕ, zero, suc, true, false, ◌||◌, Option, none, some, List, [], ◌∷◌, ◌++◌, ltb, ◌==◌,
  if◌then◌else◌,
}
use gno_ibc_relayer_api.Prelude.Strings.{Bytes, codes, is_empty}
use gno_ibc_relayer_api.Json.{Raw}
use gno_ibc_relayer_api.Db.Record.{BridgeRecord}
use gno_ibc_relayer_api.Db.World.{DoneRow, ok, err, crash, M, ◌>>=◌, ◌>>◌, pure, attempt, panic}
use gno_ibc_relayer_api.Db.Table.{Postgres, in_ids}
use gno_ibc_relayer_api.Db.Bridge.{
  insert, mark_done, mark_failed, set_tx_in, find_by_timeout_and_channel, find_by_packet_hash,
  find_ancestor,
}
use gno_ibc_relayer_api.Indexer.Items.{PacketTimeoutFields}
use gno_ibc_relayer_api.Indexer.Fields.{
  Parsed, found, absent, failed, crashed, ItemFields, is_tag, parse_item_fields,
  parse_packet_timeouts,
}
use gno_ibc_relayer_api.Indexer.Batches.{parents_of}

-- The value of a call whose error is logged: the default stands for the error.
abbrev pub or_else : {A : Type 0} → A → M A → M A
or_else d m = do r ← attempt m; pure (elim r [ ok a ↦ a | err e ↦ d | crash ↦ d ])

-- The call's effect, with its error logged.
abbrev pub ignore : {A : Type 0} → M A → M (Unit {0})
ignore m = do attempt m; pure tt

abbrev pub refunded : Bytes
refunded = codes "packet timed out; refunded on source chain"

unfoldable pub ack_err_message : Bytes → Bytes
ack_err_message e = if is_empty e then codes "ack error" else codes "ack error: " ++ e

unfoldable pub mark_write_ack_result : ℕ → ℕ → ItemFields → M (Unit {0})
mark_write_ack_result bridge_id created_at fields =
    if fields.ack_success
    then ignore (mark_done bridge_id created_at fields.tx_hash)
    else ignore (mark_failed bridge_id (ack_err_message fields.ack_error) fields.tx_hash)

-- The fields of an item; a panic in the decoding of an acknowledgement goes on.
unfoldable pub item_fields : Raw → M (Option ItemFields)
item_fields raw = elim (parse_item_fields raw) [
  | found f ↦ pure (some f)
  | absent ↦ pure none
  | failed ↦ pure none
  | crashed ↦ panic
]

-- The inner loop of `traceFailedAncestor`: the grandparents, and the ids visited.
unfoldable pub next_parents : List ℕ → List ℕ → List ℕ → M (List ℕ × List ℕ)
next_parents [] visited next = pure (next, visited)
next_parents (p ∷ ps) visited next = elim (in_ids visited p) [
  | true ↦ next_parents ps visited next
  | false ↦ do
    row ← or_else none (parents_of p)
    next_parents ps (p ∷ visited) (elim row [ none ↦ next | some r ↦ next ++ r.parents ])
]

module _ (pg : Postgres) where
  unfoldable pub mark_packet_timeout_failed : PacketTimeoutFields → M (Unit {0})
  mark_packet_timeout_failed pt = do
    bridge_id ← or_else 0 (find_by_timeout_and_channel pg pt.timeout_timestamp pt.src_channel_id)
    if bridge_id == 0 then pure tt else ignore (mark_failed bridge_id refunded [])

  -- The loop over `ParsePacketTimeouts`.
  unfoldable pub mark_timeouts : List PacketTimeoutFields → M (Unit {0})
  unfolding mark_packet_timeout_failed
  mark_timeouts [] = pure tt
  mark_timeouts (pt ∷ pts) = do mark_packet_timeout_failed pt; mark_timeouts pts

  -- The switch on the event type, once a bridge is found.
  unfoldable pub apply_event : ℕ → ℕ → ItemFields → M (Unit {0})
  unfolding mark_write_ack_result
  apply_event bridge_id created_at fields =
      if bridge_id == 0
      then pure tt
      else if is_tag "packet_recv" fields.event_type
      then ignore (set_tx_in fields.packet_hash fields.tx_hash)
      else mark_write_ack_result bridge_id created_at fields

  -- The part of a `done` row that a packet_recv or write_ack event decides.
  unfoldable pub handle_event : ℕ → Option ItemFields → M (Unit {0})
  unfolding apply_event
  handle_event created_at none = pure tt
  handle_event created_at (some fields) =
      if is_tag "packet_recv" fields.event_type || is_tag "write_ack" fields.event_type
      then (do
        bridge_id ← or_else 0 (find_by_packet_hash pg fields.packet_hash)
        apply_event bridge_id created_at fields)
      else pure tt

  -- A notified row of `done`: the event, then the timeouts.
  unfoldable pub handle_done_notification : DoneRow → M (Unit {0})
  unfolding handle_event mark_timeouts
  handle_done_notification row = do
    fields ← item_fields row.item
    handle_event row.created_at fields
    mark_timeouts (parse_packet_timeouts row.item)

  -- A row of `done` in a catch-up: the timeouts, then the event.
  unfoldable pub handle_done_catch_up : DoneRow → M (Unit {0})
  unfolding handle_event mark_timeouts
  handle_done_catch_up row = do
    mark_timeouts (parse_packet_timeouts row.item)
    fields ← item_fields row.item
    handle_event row.created_at fields

  -- `handleFailedNotification` after the direct match has failed.
  unfoldable pub fail_by_channel : Bytes → Option ItemFields → M (Unit {0})
  fail_by_channel err_msg none = pure tt
  fail_by_channel err_msg (some fields) = do
    bridge_id ←
        or_else 0 (find_by_timeout_and_channel pg fields.timeout_timestamp fields.src_channel_id)
    if bridge_id == 0 then pure tt else ignore (mark_failed bridge_id err_msg fields.tx_hash)

  unfoldable pub handle_failed_notification : ℕ → Raw → Bytes → M (Unit {0})
  unfolding fail_by_channel
  handle_failed_notification i item err_msg = do
    matched ← or_else true (mark_failed i err_msg [])
    if matched then pure tt else (do fields ← item_fields item; fail_by_channel err_msg fields)

  -- `traceFailedAncestor`, with the rounds that are left of the eight.
  unfoldable pub trace_ancestor : ℕ → List ℕ → List ℕ → M ℕ
  unfolding next_parents
  trace_ancestor zero current visited = pure 0
  trace_ancestor (suc rounds) [] visited = pure 0
  trace_ancestor (suc rounds) (p ∷ ps) visited = do
    ancestor ← find_ancestor pg (p ∷ ps)
    elim (ltb 0 ancestor) [
      | true ↦ pure ancestor
      | false ↦ do step ← next_parents (p ∷ ps) visited []; trace_ancestor rounds step.0 step.1
    ]

  unfoldable pub trace_failed_ancestor : List ℕ → M ℕ
  unfolding trace_ancestor
  trace_failed_ancestor parents = trace_ancestor 8 parents []

  -- The result of `Parse`, inserted; an error of the insertion is the caller's.
  unfoldable pub insert_parsed : Parsed BridgeRecord → M (Unit {0})
  insert_parsed (found t) = insert pg t
  insert_parsed absent = pure tt
  insert_parsed failed = pure tt
  insert_parsed crashed = panic
