-- ===== src/Db/Table.antt =====
-- The SQL that internal/db/bridge.go sends, as functions of the rows of the transfers table.
use mathlib.Core.List.{Perm}
use gno_ibc_relayer_api.Prelude.{
  ℕ, suc, ◌≤◌, ◌≡◌, Bool, not, ◌&&◌, ◌||◌, Option, none, some, List, [], ◌∷◌, ◌++◌, ltb, ◌==◌,
  if◌then◌else◌, any, keep, length,
}
use gno_ibc_relayer_api.Prelude.Membership.{In}
use gno_ibc_relayer_api.Prelude.Strings.{Bytes, str_eq, is_empty}
use gno_ibc_relayer_api.Db.Record.{BridgeRecord, status_priority}

-- Ordered by creation, oldest first if `asc`.
abbrev pub IsOrdered : Bool → List BridgeRecord → Type 0
IsOrdered asc [] = Unit
IsOrdered asc (r ∷ []) = Unit
IsOrdered asc (r ∷ s ∷ rows) =
    (if asc then r.created_at ≤ s.created_at else s.created_at ≤ r.created_at)
    × IsOrdered asc (s ∷ rows)

-- What PostgreSQL leaves open: which row of several a statement with LIMIT 1, or the first Scan,
-- returns, and how ORDER BY created_at arranges rows of one time.
pub record Postgres : Type 0 where
  pub pick : List BridgeRecord → Option BridgeRecord
  pub pick_some : (rows : List BridgeRecord) (r : BridgeRecord) → pick rows ≡ some r → In r rows
  pub pick_none : (rows : List BridgeRecord) → pick rows ≡ none → rows ≡ []
  pub order_by : Bool → List BridgeRecord → List BridgeRecord
  pub order_perm : (asc : Bool) (rows : List BridgeRecord) → Perm (order_by asc rows) rows
  pub order_ordered : (asc : Bool) (rows : List BridgeRecord) → IsOrdered asc (order_by asc rows)

-- `UPDATE transfers SET … WHERE p`
unfoldable pub update :
    (BridgeRecord → Bool) → (BridgeRecord → BridgeRecord) → List BridgeRecord → List BridgeRecord
update p f [] = []
update p f (r ∷ rs) = (if p r then f r else r) ∷ update p f rs

-- `INSERT INTO transfers … ON CONFLICT (id) DO NOTHING`
unfoldable pub insert_row : BridgeRecord → List BridgeRecord → List BridgeRecord
insert_row t rows = if any (λ r. r.id == t.id) rows then rows else rows ++ t ∷ []

-- `id = ANY(ids)`
unfoldable pub in_ids : List ℕ → ℕ → Bool
in_ids ids i = any (λ j. j == i) ids

-- `NULLIF(s, '')`
abbrev pub nullif_empty : Bytes → Option Bytes
nullif_empty s = if is_empty s then none else some s

-- `COALESCE(a, b)`
abbrev pub coalesce : Option Bytes → Option Bytes → Option Bytes
coalesce none b = b
coalesce (some a) b = some a

-- The order of the window of `DedupeByPacketHash`: its CASE repeats `statusPriority`.
unfoldable pub precedes : BridgeRecord → BridgeRecord → Bool
precedes s r =
    ltb (status_priority s.status) (status_priority r.status)
    || (status_priority s.status == status_priority r.status && ltb s.id r.id)

unfoldable pub same_hash : BridgeRecord → BridgeRecord → Bool
same_hash s r = str_eq s.packet_hash r.packet_hash

-- ROW_NUMBER() in the partition of one packet_hash.
unfoldable pub row_number : List BridgeRecord → BridgeRecord → ℕ
row_number rows r = suc (length (keep (λ s. same_hash s r && precedes s r) rows))

unfoldable pub outranked : List BridgeRecord → BridgeRecord → Bool
unfolding row_number
outranked rows r = ltb 1 (row_number rows r)

-- `DELETE FROM transfers WHERE id IN (SELECT id FROM ranked WHERE rn > 1)`
unfoldable pub dedupe_rows : List BridgeRecord → List BridgeRecord
unfolding outranked
dedupe_rows rows = keep (λ r. not (any (λ s. s.id == r.id && outranked rows s) rows)) rows
