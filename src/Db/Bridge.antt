-- ===== src/Db/Bridge.antt =====
-- internal/db/bridge.go: the methods of `BridgeDB`.
use gno_ibc_relayer_api.Prelude.{
  ℕ, ◌-◌, Bool, true, false, ◌&&◌, ◌||◌, Option, none, some, List, [], ◌∷◌, map, ltb, ◌==◌,
  if◌then◌else◌, any, keep, length, take, drop,
}
use gno_ibc_relayer_api.Prelude.Int.{ℤ, pos, negsuc, eq_ℤ}
use gno_ibc_relayer_api.Prelude.Strings.{Bytes, codes, str_eq, is_empty}
use gno_ibc_relayer_api.Db.Record.{
  BridgeRecord, status_priority, status_detected, status_processing, status_done, status_failed,
}
use gno_ibc_relayer_api.Db.World.{
  World, M, ◌>>=◌, pure, raise, statement, query, negative_window, not_found,
}
use gno_ibc_relayer_api.Db.Table.{
  Postgres, update, insert_row, in_ids, nullif_empty, coalesce, dedupe_rows,
}

-- An Exec that changes the transfers table.
unfoldable pub exec : (List BridgeRecord → List BridgeRecord) → M (Unit {0})
exec f = statement λ w. (tt, record w { transfers = f w.transfers })

-- An UPDATE, with `RowsAffected() > 0`.
unfoldable pub exec_update : (BridgeRecord → Bool) → (BridgeRecord → BridgeRecord) → M Bool
exec_update p f =
    statement λ w. (any p w.transfers, record w { transfers = update p f w.transfers })

-- The columns that the INSERT of `Insert` writes; the others are NULL.
abbrev pub new_row : BridgeRecord → BridgeRecord
new_row t = record t { done_at = none; err_msg = none; tx_in = none }

unfoldable pub mark_processing : List ℕ → M (Unit {0})
mark_processing ids = exec (
    update (λ r. in_ids ids r.id && r.status == status_detected)
      (λ r. record r { status = status_processing }))

unfoldable pub mark_done : ℕ → ℕ → Bytes → M Bool
mark_done i done_at tx_in =
    exec_update (λ r. r.id == i && ltb r.status status_done)
      λ r. record r {
        status = status_done;
        done_at = some done_at;
        tx_in = coalesce r.tx_in (nullif_empty tx_in);
      }

abbrev pub is_unset : Option Bytes → Bool
is_unset none = true
is_unset (some s) = false

unfoldable pub set_tx_in : Bytes → Bytes → M (Unit {0})
set_tx_in packet_hash tx_in =
    if is_empty tx_in
    then pure tt
    else exec (
        update (λ r. str_eq r.packet_hash packet_hash && is_unset r.tx_in)
          (λ r. record r { tx_in = some tx_in }))

unfoldable pub mark_failed : ℕ → Bytes → Bytes → M Bool
mark_failed i err_msg tx_in =
    exec_update (λ r. r.id == i && ltb r.status status_done)
      λ r. record r {
        status = status_failed;
        err_msg = some err_msg;
        tx_in = coalesce r.tx_in (nullif_empty tx_in);
      }

-- `SELECT last_id FROM indexer_cursors WHERE name=$1`, with 0 for no row.
unfoldable pub cursor_of : Bytes → List (Bytes × ℕ) → ℕ
cursor_of name [] = 0
cursor_of name ((n, i) ∷ cs) = if str_eq n name then i else cursor_of name cs

-- `INSERT … ON CONFLICT (name) DO UPDATE`
unfoldable pub upsert_cursor : Bytes → ℕ → List (Bytes × ℕ) → List (Bytes × ℕ)
upsert_cursor name i [] = (name, i) ∷ []
upsert_cursor name i ((n, j) ∷ cs) =
    if str_eq n name then (n, i) ∷ cs else (n, j) ∷ upsert_cursor name i cs

unfoldable pub get_cursor : Bytes → M ℕ
get_cursor name = query λ w. cursor_of name w.cursors

unfoldable pub set_cursor : Bytes → ℕ → M (Unit {0})
set_cursor name i = statement λ w. (tt, record w { cursors = upsert_cursor name i w.cursors })

unfoldable pub get_detected_ids : M (List ℕ)
get_detected_ids = query λ w. map (λ r. r.id) (keep (λ r. r.status == status_detected) w.transfers)

unfoldable pub get_in_flight_created_at : M (List ℕ)
get_in_flight_created_at =
    query λ w. map (λ r. r.created_at) (keep (λ r. ltb r.status status_done) w.transfers)

-- `DedupeByPacketHash`, with the number of rows removed.
unfoldable pub dedupe_by_packet_hash : M ℕ
dedupe_by_packet_hash = statement λ w. (
  length w.transfers - length (dedupe_rows w.transfers),
  record w { transfers = dedupe_rows w.transfers },
)

pub record ListFilter : Type 0 where
  pub address : Bytes
  pub order : Bytes
  pub limit : ℤ
  pub offset : ℤ

pub record StatusSummary : Type 0 where
  pub total : ℕ
  pub detected : ℕ
  pub processing : ℕ
  pub succeeded : ℕ
  pub failed : ℕ

abbrev pub id_or_zero : Option BridgeRecord → ℕ
id_or_zero none = 0
id_or_zero (some r) = r.id

-- `COUNT(*) FILTER (WHERE status=s)`
unfoldable pub count_status : ℕ → List BridgeRecord → ℕ
count_status s rows = length (keep (λ r. r.status == s) rows)

-- `SELECT count(*) FROM transfers`
unfoldable pub count : M ℕ
count = query λ w. length w.transfers

-- The switch of `Insert`, on the row that has the packet hash.
unfoldable pub insert_or_advance : BridgeRecord → Option BridgeRecord → M (Unit {0})
insert_or_advance t none = exec (insert_row (new_row t))
insert_or_advance t (some old) =
    if ltb (status_priority t.status) (status_priority old.status)
    then exec (update (λ r. r.id == old.id) (λ r. record r { status = t.status }))
    else pure tt

-- A SELECT with LIMIT and OFFSET; PostgreSQL refuses negative ones.
abbrev pub window : ℤ → ℤ → (World → List BridgeRecord) → M (List BridgeRecord)
window (pos limit) (pos offset) rows = query (λ w. take limit (drop offset (rows w)))
window (pos limit) (negsuc offset) rows = raise negative_window
window (negsuc limit) offset rows = raise negative_window

-- `scanBridgeRecord`, on the row of a query. The columns that the program writes are not NULL, so the
-- error of scanning a NULL into a text or a number does not occur.
abbrev pub scan_bridge_record : Option BridgeRecord → M BridgeRecord
scan_bridge_record none = raise not_found
scan_bridge_record (some r) = pure r

module _ (pg : Postgres) where
  open pg use {pick, order_by}

  unfoldable pub insert : BridgeRecord → M (Unit {0})
  unfolding insert_or_advance
  insert t = do
    existing ← query (λ w. pick (keep (λ r. str_eq r.packet_hash t.packet_hash) w.transfers))
    insert_or_advance t existing

  unfoldable pub find_by_timeout_and_channel : ℤ → ℤ → M ℕ
  find_by_timeout_and_channel timeout channel = query λ w. id_or_zero (
      pick (
        keep
          (λ r.
            eq_ℤ r.timeout_timestamp timeout
            && eq_ℤ r.src_channel_id channel
            && ltb r.status status_done)
          w.transfers))

  unfoldable pub find_by_packet_hash : Bytes → M ℕ
  find_by_packet_hash packet_hash = query λ w. id_or_zero (
      pick (keep (λ r. str_eq r.packet_hash packet_hash && ltb r.status status_failed) w.transfers))

  unfoldable pub find_ancestor : List ℕ → M ℕ
  find_ancestor [] = pure 0
  find_ancestor (i ∷ ids) = query λ w.
      id_or_zero (pick (keep (λ r. in_ids (i ∷ ids) r.id && ltb r.status status_done) w.transfers))

  -- The rows of `List`, before LIMIT and OFFSET.
  unfoldable pub listed : ListFilter → List BridgeRecord → List BridgeRecord
  listed f rows = order_by (str_eq f.order (codes "asc")) (
      if is_empty f.address
      then rows
      else keep (λ r. str_eq r.from_address f.address || str_eq r.to_address f.address) rows)

  -- `List`
  unfoldable pub list : ListFilter → M (List BridgeRecord)
  list f = window f.limit f.offset (λ w. listed f w.transfers)

  -- `GetByPacketHash`
  unfoldable pub get_by_packet_hash : Bytes → M BridgeRecord
  get_by_packet_hash packet_hash = do
    found ← query (λ w. pick (keep (λ r. str_eq r.packet_hash packet_hash) w.transfers))
    scan_bridge_record found

  -- `CountRecentByStatus`
  unfoldable pub count_recent_by_status : ℕ → M StatusSummary
  count_recent_by_status limit = query λ w.
      let recent = take limit (order_by false w.transfers) in
      record {
        total = length recent;
        detected = count_status status_detected recent;
        processing = count_status status_processing recent;
        succeeded = count_status status_done recent;
        failed = count_status status_failed recent;
      }
