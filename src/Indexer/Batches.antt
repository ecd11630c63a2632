-- ===== src/Indexer/Batches.antt =====
-- The reads of the relayer's tables that internal/indexer/sync.go and listener.go make.
use gno_ibc_relayer_api.Prelude.{
  ℕ, ◌+◌, ◌*◌, ◌^◌, Bool, true, false, ◌&&◌, ◌||◌, Option, none, some, List, [], ◌∷◌, map, ltb, leb,
  ◌==◌, if◌then◌else◌, keep, find, take,
}
use gno_ibc_relayer_api.Prelude.Int.{ℤ, pos, negsuc}
use gno_ibc_relayer_api.Prelude.Strings.{Bytes, codes, is_empty}
use gno_ibc_relayer_api.Json.{
  Json, Items, Members, Raw, null, fraction, boolean, number, string, array, object, nil, cons, end,
  member,
}
use gno_ibc_relayer_api.Db.World.{
  World, QueueRow, DoneRow, FailedRow, M, query, raise, negative_window,
}
use gno_ibc_relayer_api.Db.Table.{in_ids}

-- ORDER BY id.
unfoldable pub insert_by : {A : Type 0} → (A → ℕ) → A → List A → List A
insert_by key a [] = a ∷ []
insert_by key a (b ∷ bs) = if leb (key a) (key b) then a ∷ b ∷ bs else b ∷ insert_by key a bs

unfoldable pub sort_by : {A : Type 0} → (A → ℕ) → List A → List A
unfolding insert_by
sort_by key [] = []
sort_by key (a ∷ rest) = insert_by key a (sort_by key rest)

-- `WHERE id > $1 ORDER BY id LIMIT $2`
unfoldable pub batch : {A : Type 0} → (A → ℕ) → (World → List A) → ℕ → ℤ → M (List A)
unfolding sort_by
batch key table cursor (pos n) =
    query λ w. take n (sort_by key (keep (λ r. ltb cursor (key r)) (table w)))
batch key table cursor (negsuc n) = raise negative_window

-- `SELECT id FROM queue WHERE id = ANY($1)`
unfoldable pub queued_ids : List ℕ → M (List ℕ)
queued_ids ids = query λ w. keep (in_ids ids) (map (λ r. r.id) w.queue)

-- The row of a notified id; a negative id is in no table.
unfoldable pub queue_row : ℤ → M (Option QueueRow)
queue_row (pos i) = query λ w. find (λ r. r.id == i) w.queue
queue_row (negsuc i) = query λ w. none

unfoldable pub done_row : ℤ → M (Option DoneRow)
done_row (pos i) = query λ w. find (λ r. r.id == i) w.done
done_row (negsuc i) = query λ w. none

unfoldable pub failed_row : ℤ → M (Option FailedRow)
failed_row (pos i) = query λ w. find (λ r. r.id == i) w.failed
failed_row (negsuc i) = query λ w. none

-- LIKE '%p%' on a text, where `_` stands for any one character. The patterns in use can only match
-- within one string or key of the JSON text, so they are tried on each.
unfoldable pub like_prefix : Bytes → Bytes → Bool
like_prefix [] s = true
like_prefix (p ∷ ps) [] = false
like_prefix (p ∷ ps) (c ∷ s) = (p == b'_' || p == c) && like_prefix ps s

unfoldable pub like : Bytes → Bytes → Bool
unfolding like_prefix
like p [] = is_empty p
like p (c ∷ s) = like_prefix p (c ∷ s) || like p s

unfoldable mutual
  pub mentions : Bytes → Json → Bool
  mentions p null = false
  mentions p fraction = false
  mentions p (boolean b) = false
  mentions p (number n) = false
  mentions p (string s) = like p s
  mentions p (array vs) = items_mention p vs
  mentions p (object ms) = members_mention p ms

  pub items_mention : Bytes → Items → Bool
  items_mention p nil = false
  items_mention p (cons v vs) = mentions p v || items_mention p vs

  pub members_mention : Bytes → Members → Bool
  members_mention p end = false
  members_mention p (member k v ms) = like p k || (mentions p v || members_mention p ms)

-- The LIKE conditions of `syncDone`, which are those of the trigger on `done`.
unfoldable pub is_relevant : Raw → Bool
unfolding mentions
is_relevant none = false
is_relevant (some v) =
    mentions (codes "packet_recv") v
    || (mentions (codes "write_ack") v || mentions (codes "packet_timeout") v)

abbrev pub minute : ℕ
minute = 60 * 10 ^ 9

-- The rows of `done` that `syncDone` reads: `created_at >= oldest - 1m`, without the subtraction.
unfoldable pub done_since : ℕ → M (List DoneRow)
unfolding is_relevant
done_since oldest =
    query λ w. keep (λ r. is_relevant r.item && leb oldest (r.created_at + minute)) w.done

-- `SELECT parents FROM done WHERE id = $1`
unfoldable pub parents_of : ℕ → M (Option DoneRow)
parents_of i = query λ w. find (λ r. r.id == i) w.done
