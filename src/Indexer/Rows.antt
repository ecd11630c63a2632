-- ===== src/Indexer/Rows.antt =====
-- internal/indexer: a row of `done` has the same effect when it is notified and in a catch-up.
use gno_ibc_relayer_api.Prelude.{
  ◌≡◌, refl, sym, ◌⊎◌, inl, inr, true, Option, none, some, [], Bool-cases,
}
use gno_ibc_relayer_api.Prelude.Strings.{codes, str_eq, str_eq→eq}
use gno_ibc_relayer_api.Json.{Raw}
use gno_ibc_relayer_api.Db.World.{World, DoneRow}
use gno_ibc_relayer_api.Db.Statements.{bind-pure, >>=-congr}
use gno_ibc_relayer_api.Db.Table.{Postgres}
use gno_ibc_relayer_api.Indexer.Items.{TypedValue, PluginBody, unmarshal_typed}
use gno_ibc_relayer_api.Indexer.Fields.{
  absent, is_tag, call_body, call_fields, parse_item_fields, multicall_timeouts,
  parse_packet_timeouts,
}
use gno_ibc_relayer_api.Indexer.Marks.{
  item_fields, mark_timeouts, handle_event, handle_done_notification, handle_done_catch_up,
}

multicall_is_no_event :
    (body : PluginBody) → (call_fields body ≡ absent) ⊎ (multicall_timeouts (some body) ≡ [])
unfolding call_fields multicall_timeouts str_eq
multicall_is_no_event body = elim (Bool-cases (is_tag "submit_multicall" body.message.tag)) [
  | inl e ↦
      let tag : body.message.tag ≡ codes "submit_multicall" = str_eq→eq _ _ e in
      inl (rw (call_fields, tag) refl)
  | inr e ↦ inr (rw (multicall_timeouts, e) refl)
]

-- An item with timeouts is no event.
timeouts_are_no_event :
    (raw : Raw) → (parse_item_fields raw ≡ absent) ⊎ (parse_packet_timeouts raw ≡ [])
unfolding parse_item_fields parse_packet_timeouts multicall_timeouts
timeouts_are_no_event raw = by_outer (unmarshal_typed raw) refl
  where
    by_body :
        (outer : TypedValue)
        → unmarshal_typed raw ≡ some outer
        → is_tag "call" outer.tag ≡ true
        → (b : Option PluginBody) → call_body outer ≡ b
        → (parse_item_fields raw ≡ absent) ⊎ (parse_packet_timeouts raw ≡ [])
    by_body outer e call none b = inr (rw (parse_packet_timeouts, e, call, b) refl)
    by_body outer e call (some body) b = elim (multicall_is_no_event body) [
      | inl n ↦ inl (rw (parse_item_fields, e, call, b) n)
      | inr n ↦ inr (rw (parse_packet_timeouts, e, call, b) n)
    ]

    by_outer :
        (o : Option TypedValue)
        → unmarshal_typed raw ≡ o
        → (parse_item_fields raw ≡ absent) ⊎ (parse_packet_timeouts raw ≡ [])
    by_outer none e = inr (rw (parse_packet_timeouts, e) refl)
    by_outer (some outer) e = elim (Bool-cases (is_tag "call" outer.tag)) [
      | inl call ↦ by_body outer e call (call_body outer) refl
      | inr other ↦ inr (rw (parse_packet_timeouts, e, other) refl)
    ]

-- The two orders of handling a row of `done`, the event first for a notification and the timeouts first
-- in a catch-up, give the same result and the same tables, whatever the item and whatever fails.
pub handle_done-orders :
    (pg : Postgres) (row : DoneRow) (w : World)
    → handle_done_notification pg row w ≡ handle_done_catch_up pg row w
unfolding handle_done_notification handle_done_catch_up mark_timeouts handle_event item_fields
handle_done-orders pg row w = elim (timeouts_are_no_event row.item) [
  | inl event ↦
      rw (handle_done_notification, handle_done_catch_up, item_fields, event)
        (sym (bind-pure (mark_timeouts pg (parse_packet_timeouts row.item)) w))
  | inr timeouts ↦
      rw (handle_done_notification, handle_done_catch_up, timeouts)
        (>>=-congr (item_fields row.item) _ _
          (λ fields v. bind-pure (handle_event pg row.created_at fields) v) w)
]
