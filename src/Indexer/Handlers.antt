-- ===== src/Indexer/Handlers.antt =====
-- internal/indexer: each handler only advances the bridges.
use gno_ibc_relayer_api.Prelude.{
  ℕ, zero, suc, Option, none, some, List, [], ◌∷◌, ◌++◌, ltb, Bool-cases, inl, inr,
}
use gno_ibc_relayer_api.Prelude.Int.{ℤ}
use gno_ibc_relayer_api.Prelude.Strings.{Bytes}
use gno_ibc_relayer_api.Json.{Raw}
use gno_ibc_relayer_api.Config.{ChannelChain}
use gno_ibc_relayer_api.Db.World.{DoneRow, M, pure, panic, attempt}
use gno_ibc_relayer_api.Db.Table.{Postgres, in_ids}
use gno_ibc_relayer_api.Db.Bridge.{find_by_timeout_and_channel, find_by_packet_hash, find_ancestor}
use gno_ibc_relayer_api.Prelude.{Bool, true}
use gno_ibc_relayer_api.Indexer.Effects.{
  Grows, Grows-query, Grows-bind, Grows-pure, Grows-panic, Grows-attempt,
}
use gno_ibc_relayer_api.Indexer.Growth.{
  growth, Grows-mark_processing, Grows-mark_failed, Grows-insert,
}
use gno_ibc_relayer_api.Indexer.Marks.{
  or_else, ignore, mark_write_ack_result, item_fields, mark_packet_timeout_failed, mark_timeouts,
  apply_event, handle_event, handle_done_notification, handle_done_catch_up, fail_by_channel,
  handle_failed_notification, next_parents, trace_ancestor, trace_failed_ancestor, insert_parsed,
}
use gno_ibc_relayer_api.Indexer.Items.{PacketTimeoutFields}
use gno_ibc_relayer_api.Indexer.Fields.{
  ItemFields, Parsed, found, absent, failed, crashed, parse_item_fields,
}
use gno_ibc_relayer_api.Indexer.Parser.{parse}
use gno_ibc_relayer_api.Indexer.Routes.{Finds, IsNewBridge, parse-Finds}
use gno_ibc_relayer_api.Indexer.Batches.{parents_of}
use gno_ibc_relayer_api.Db.Record.{BridgeRecord}

pub Grows-or_else : {b : Bool} {A : Type 0} (d : A) (m : M A) → Grows b m → Grows b (or_else d m)
Grows-or_else d m g = Grows-bind (attempt m) _ (Grows-attempt m g) (λ r. Grows-pure _)

unfoldable pub Grows-ignore : {b : Bool} {A : Type 0} (m : M A) → Grows b m → Grows b (ignore m)
Grows-ignore m g = Grows-bind (attempt m) _ (Grows-attempt m g) (λ r. Grows-pure tt)

pub ruleset marks = (growth, Grows-or_else, Grows-ignore)

Grows-mark_write_ack_result :
    {b : Bool} (i t : ℕ) (fields : ItemFields) → Grows b (mark_write_ack_result i t fields)
unfolding mark_write_ack_result
Grows-mark_write_ack_result i t fields = search marks

Grows-parents_of : {b : Bool} (i : ℕ) → Grows b (parents_of i)
unfolding parents_of
Grows-parents_of i = Grows-query _

Grows-next_parents : {b : Bool} (ps visited next : List ℕ) → Grows b (next_parents ps visited next)
unfolding next_parents
Grows-next_parents [] visited next = Grows-pure (next, visited)
Grows-next_parents (p ∷ ps) visited next = elim (Bool-cases (in_ids visited p)) [
  | inl seen ↦ rw (next_parents, seen) (Grows-next_parents ps visited next)
  | inr fresh ↦
      rw (next_parents, fresh)
        (Grows-bind (or_else none (parents_of p)) _
          (Grows-or_else none (parents_of p) (Grows-parents_of p))
          λ row.
            Grows-next_parents ps (p ∷ visited)
              (elim row [ none ↦ next | some r ↦ next ++ r.parents ]))
]

module _ (pg : Postgres) where
  Grows-find_by_timeout : {b : Bool} (t c : ℤ) → Grows b (find_by_timeout_and_channel pg t c)
  unfolding find_by_timeout_and_channel
  Grows-find_by_timeout t c = Grows-query _

  Grows-mark_packet_timeout_failed :
      {b : Bool} (pt : PacketTimeoutFields) → Grows b (mark_packet_timeout_failed pg pt)
  unfolding mark_packet_timeout_failed
  Grows-mark_packet_timeout_failed pt = search (marks, Grows-find_by_timeout)

  Grows-mark_timeouts : {b : Bool} (pts : List PacketTimeoutFields) → Grows b (mark_timeouts pg pts)
  unfolding mark_timeouts
  Grows-mark_timeouts [] = Grows-pure tt
  Grows-mark_timeouts (pt ∷ pts) =
      Grows-bind (mark_packet_timeout_failed pg pt) _ (Grows-mark_packet_timeout_failed pt)
        (λ _. Grows-mark_timeouts pts)

  Grows-find_by_packet_hash : {b : Bool} (h : Bytes) → Grows b (find_by_packet_hash pg h)
  unfolding find_by_packet_hash
  Grows-find_by_packet_hash h = Grows-query _

  Grows-apply_event :
      {b : Bool} (i t : ℕ) (fields : ItemFields) → Grows b (apply_event pg i t fields)
  unfolding apply_event
  Grows-apply_event i t fields = search (marks, Grows-mark_write_ack_result)

  Grows-handle_event : {b : Bool} (t : ℕ) (o : Option ItemFields) → Grows b (handle_event pg t o)
  unfolding handle_event
  Grows-handle_event t none = Grows-pure tt
  Grows-handle_event t (some fields) = search (marks, Grows-find_by_packet_hash, Grows-apply_event)

  Grows-item_fields : {b : Bool} (raw : Raw) → Grows b (item_fields raw)
  unfolding item_fields
  Grows-item_fields {b} raw = by_parse (parse_item_fields raw)
    where
      by_parse :
          (o : Parsed ItemFields)
          → Grows b (elim o [
            | found f ↦ pure (some f)
            | absent ↦ pure none
            | failed ↦ pure none
            | crashed ↦ panic
          ])
      by_parse (found f) = Grows-pure (some f)
      by_parse absent = Grows-pure none
      by_parse failed = Grows-pure none
      by_parse crashed = Grows-panic

  pub Grows-handle_done_notification :
      {b : Bool} (row : DoneRow) → Grows b (handle_done_notification pg row)
  unfolding handle_done_notification
  Grows-handle_done_notification row =
      search (growth, Grows-item_fields, Grows-handle_event, Grows-mark_timeouts)

  pub Grows-handle_done_catch_up :
      {b : Bool} (row : DoneRow) → Grows b (handle_done_catch_up pg row)
  unfolding handle_done_catch_up
  Grows-handle_done_catch_up row =
      search (growth, Grows-item_fields, Grows-handle_event, Grows-mark_timeouts)

  Grows-fail_by_channel :
      {b : Bool} (e : Bytes) (o : Option ItemFields) → Grows b (fail_by_channel pg e o)
  unfolding fail_by_channel
  Grows-fail_by_channel e none = Grows-pure tt
  Grows-fail_by_channel e (some fields) = search (marks, Grows-find_by_timeout)

  pub Grows-handle_failed_notification :
      {b : Bool} (i : ℕ) (item : Raw) (e : Bytes) → Grows b (handle_failed_notification pg i item e)
  unfolding handle_failed_notification
  Grows-handle_failed_notification i item e =
      search (marks, Grows-item_fields, Grows-fail_by_channel)

  Grows-find_ancestor : {b : Bool} (ids : List ℕ) → Grows b (find_ancestor pg ids)
  unfolding find_ancestor
  Grows-find_ancestor [] = Grows-pure 0
  Grows-find_ancestor (i ∷ ids) = Grows-query _

  Grows-trace_ancestor :
      {b : Bool} (rounds : ℕ) (current visited : List ℕ)
      → Grows b (trace_ancestor pg rounds current visited)
  unfolding trace_ancestor
  Grows-trace_ancestor zero current visited = Grows-pure 0
  Grows-trace_ancestor (suc rounds) [] visited = Grows-pure 0
  Grows-trace_ancestor (suc rounds) (p ∷ ps) visited =
      Grows-bind (find_ancestor pg (p ∷ ps)) _ (Grows-find_ancestor (p ∷ ps)) λ ancestor.
        elim (Bool-cases (ltb 0 ancestor)) [
          | inl there ↦ rw there (Grows-pure ancestor)
          | inr missing ↦ rw missing (
              Grows-bind (next_parents (p ∷ ps) visited []) _
                (Grows-next_parents (p ∷ ps) visited [])
                (λ step. Grows-trace_ancestor rounds step.0 step.1))
        ]

  pub Grows-trace_failed_ancestor : {b : Bool} (ps : List ℕ) → Grows b (trace_failed_ancestor pg ps)
  unfolding trace_failed_ancestor
  Grows-trace_failed_ancestor ps = Grows-trace_ancestor 8 ps []

  pub Grows-insert_parsed :
      (chains : List ChannelChain) (i t : ℕ) (raw : Raw)
      → Grows true (insert_parsed pg (parse i raw t chains))
  Grows-insert_parsed chains i t raw = by_parse (parse i raw t chains) (parse-Finds chains i t raw)
    where
      by_parse :
          (o : Parsed BridgeRecord)
          → Finds (λ b. IsNewBridge chains i t b) o
          → Grows true (insert_parsed pg o)
      by_parse (found b) h = unfold insert_parsed in Grows-insert b pg h.detected
      by_parse absent h = unfold insert_parsed in Grows-pure tt
      by_parse failed h = unfold insert_parsed in Grows-pure tt
      by_parse crashed h = unfold insert_parsed in Grows-panic
