-- ===== src/Indexer/Relevant.antt =====
-- internal/indexer/sync.go: the LIKE conditions of `syncDone`, which are those of the trigger on `done`,
-- pass over no row that would have an effect.
use gno_ibc_relayer_api.Prelude.{
  ℕ, ◌≡◌, refl, Bool, true, false, Option, none, some, List, [], ◌∷◌, arith, if◌then◌else◌, All,
  keep, Bool-cases, inl, inr,
}
use gno_ibc_relayer_api.Json.{Raw}
use gno_ibc_relayer_api.Db.World.{World, DoneRow, ok, M, ◌>>=◌, pure, panic}
use gno_ibc_relayer_api.Db.Statements.{>>=-congr}
use gno_ibc_relayer_api.Db.Table.{Postgres}
use gno_ibc_relayer_api.Indexer.Items.{
  TypedValue, PluginBody, PacketTimeoutFields, unmarshal_typed, unmarshal_items,
}
use gno_ibc_relayer_api.Indexer.Fields.{
  Parsed, found, absent, failed, crashed, is_tag, ItemFields, call_body, parse_item_fields,
  collect_timeouts, multicall_timeouts, parse_packet_timeouts,
}
use gno_ibc_relayer_api.Indexer.Batches.{is_relevant}
use gno_ibc_relayer_api.Indexer.Clean.{Gives, Clean, CleanTyped, unmarshal_typed-Clean}
use gno_ibc_relayer_api.Indexer.CleanItems.{unmarshal_items-Clean}
use gno_ibc_relayer_api.Indexer.Marks.{
  item_fields, handle_event, mark_timeouts, handle_done_catch_up,
}
use gno_ibc_relayer_api.Indexer.Sync.{done_rows}
use gno_ibc_relayer_api.Indexer.Quiet.{
  recv, ack, timeout, likes, no_text, Safe, Quiet, call_body-Clean, parse_item_fields-Quiet,
}

-- Multicalls without a packet_timeout give no timeouts.
collect_timeouts-Clean :
    (items : List TypedValue) → All (CleanTyped timeout) items → collect_timeouts items ≡ []
unfolding collect_timeouts
collect_timeouts-Clean [] h = refl
collect_timeouts-Clean (item ∷ items) h =
    rw (collect_timeouts, h.0.0) (collect_timeouts-Clean items h.1)

multicall_timeouts-Clean :
    (o : Option PluginBody)
    → Gives (λ b. CleanTyped timeout b.message) o
    → multicall_timeouts o ≡ []
unfolding multicall_timeouts
multicall_timeouts-Clean none h = refl
multicall_timeouts-Clean (some body) h = by_test (is_tag "submit_multicall" body.message.tag) (
    by_items (unmarshal_items body.message.value)
      (unmarshal_items-Clean timeout likes.2 no_text.2 body.message.value h.1))
  where
    by_items :
        (o : Option (List TypedValue))
        → Gives (All (CleanTyped timeout)) o
        → (elim o as (λ _. List PacketTimeoutFields) [
          | none ↦ []
          | some items ↦ collect_timeouts items
        ])
          ≡ []
    by_items none k = refl
    by_items (some items) k = collect_timeouts-Clean items k

    by_test : (b : Bool) {ts : List PacketTimeoutFields} → ts ≡ [] → (if b then ts else []) ≡ []
    by_test true e = e
    by_test false e = refl

parse_packet_timeouts-Clean : (raw : Raw) → Clean timeout raw → parse_packet_timeouts raw ≡ []
unfolding parse_packet_timeouts
parse_packet_timeouts-Clean raw h =
    by_outer (unmarshal_typed raw) (unmarshal_typed-Clean timeout likes.2 no_text.2 raw h)
  where
    by_test : (b : Bool) {ts : List PacketTimeoutFields} → ts ≡ [] → (if b then ts else []) ≡ []
    by_test true e = e
    by_test false e = refl

    by_outer :
        (o : Option TypedValue)
        → Gives (CleanTyped timeout) o
        → (elim o as (λ _. List PacketTimeoutFields) [
          | none ↦ []
          | some outer ↦
              if is_tag "call" outer.tag then multicall_timeouts (call_body outer) else []
        ])
          ≡ []
    by_outer none k = refl
    by_outer (some outer) k = by_test (is_tag "call" outer.tag) (
        multicall_timeouts-Clean (call_body outer)
          (call_body-Clean timeout likes.2 no_text.2 outer k))

-- An item that the conditions pass over mentions none of the three.
not_relevant :
    (raw : Raw) → is_relevant raw ≡ false → Clean recv raw × Clean ack raw × Clean timeout raw
unfolding is_relevant
not_relevant none h = (tt, tt, tt)
not_relevant (some v) h = ground arith

module _ (pg : Postgres) where
  Quiet-event :
      (raw : Raw) (t : ℕ) (w : World)
      → Safe Quiet (parse_item_fields raw)
      → (item_fields raw >>= λ fields. handle_event pg t fields) w ≡ (ok tt, w)
  unfolding item_fields handle_event
  Quiet-event raw t w h = by_parse (parse_item_fields raw) h
    where
      by_parse :
          (o : Parsed ItemFields)
          → Safe Quiet o
          → ((elim o as (λ _. M (Option ItemFields)) [
            | found f ↦ pure (some f)
            | absent ↦ pure none
            | failed ↦ pure none
            | crashed ↦ panic
          ])
                >>= λ fields. handle_event pg t fields)
              w
            ≡ (ok tt, w)
      by_parse (found f) k = rw (handle_event, k) refl
      by_parse absent k = refl
      by_parse failed k = refl
      by_parse crashed k = absurd k

  irrelevant_row :
      (row : DoneRow) (w : World)
      → is_relevant row.item ≡ false
      → handle_done_catch_up pg row w ≡ (ok tt, w)
  unfolding handle_done_catch_up mark_timeouts
  irrelevant_row row w h =
      let clean : Clean recv row.item × Clean ack row.item × Clean timeout row.item =
        not_relevant row.item h in
      rw (handle_done_catch_up, parse_packet_timeouts-Clean row.item clean.2)
        (Quiet-event row.item row.created_at w (parse_item_fields-Quiet row.item clean.0 clean.1))

  -- Handling the rows of `done` that the conditions of the catch-up select has the same result and the same
  -- effect as handling all the rows: the conditions pass over no row that would change a bridge, or
  -- end in a panic.
  pub done_rows-relevant :
      (rows : List DoneRow) (w : World)
      → done_rows pg (keep (λ r. is_relevant r.item) rows) w ≡ done_rows pg rows w
  unfolding done_rows keep
  done_rows-relevant [] w = refl
  done_rows-relevant (row ∷ rows) w = elim (Bool-cases (is_relevant row.item)) [
    | inl e ↦
        rw (keep, e, done_rows)
          (>>=-congr (handle_done_catch_up pg row) _ _ (λ _ v. done_rows-relevant rows v) w)
    | inr e ↦ rw (keep, e, done_rows, irrelevant_row row w e) (done_rows-relevant rows w)
  ]
