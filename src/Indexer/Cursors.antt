-- ===== src/Indexer/Cursors.antt =====
-- internal/indexer/sync.go: the cursor of the queue passes over no row.
use gno_ibc_relayer_api.Prelude.{
  ℕ, ◌≤◌, ◌≡◌, refl, sym, ap, subst, ◌∙◌, List, [], ◌∷◌, inl, inr, arith, ltb, All, keep, take,
  Bool-cases,
}
use gno_ibc_relayer_api.Prelude.Int.{ℤ, pos, negsuc}
use gno_ibc_relayer_api.Prelude.Membership.{In, All-In}
use gno_ibc_relayer_api.Config.{ChannelChain}
use gno_ibc_relayer_api.Db.Record.{BridgeRecord}
use gno_ibc_relayer_api.Db.World.{World, QueueRow, Result, ok, err, crash, M, ◌>>=◌, continue}
use gno_ibc_relayer_api.Db.Statements.{result_cases}
use gno_ibc_relayer_api.Db.Table.{Postgres}
use gno_ibc_relayer_api.Db.Bridge.{insert, get_cursor, set_cursor, cursor_of}
use gno_ibc_relayer_api.Indexer.Fields.{Parsed, found, absent, failed, crashed}
use gno_ibc_relayer_api.Indexer.Parser.{parse}
use gno_ibc_relayer_api.Indexer.Batches.{batch, sort_by}
use gno_ibc_relayer_api.Indexer.Marks.{insert_parsed}
use gno_ibc_relayer_api.Indexer.Sync.{queue_cursor, queue_rows, advance_cursor, sync_queue}
use gno_ibc_relayer_api.Indexer.Ordered.{IsDistinctBy, last_key, In-batch}
use gno_ibc_relayer_api.Indexer.Tracked.{
  IsTracked, IsFollowed, Tracks, IsFollowed-refl, Tracks-bind, query-Tracks, weaken, same_bridge,
  not_found, insert-Tracks, cursor_of-upsert,
}

module _ (pg : Postgres) (chains : List ChannelChain) where
  -- The bridge that a row of the queue parses to is tracked.
  abbrev pub IsRead : World → QueueRow → Type 0
  IsRead w row =
      (t : BridgeRecord) → parse row.id row.item row.created_at chains ≡ found t → IsTracked t w

  row-Tracks :
      (row : QueueRow) (w : World)
      → Tracks
          (λ _ v. IsRead v row)
          w
          (insert_parsed pg (parse row.id row.item row.created_at chains) w)
  unfolding insert_parsed
  row-Tracks row w = by_parse (parse row.id row.item row.created_at chains)
    where
      by_parse :
          (p : Parsed BridgeRecord)
          → Tracks
              (λ _ v. (t : BridgeRecord) → p ≡ found t → IsTracked t v)
              w
              (insert_parsed pg p w)
      by_parse (found t) =
          weaken w (insert pg t w) (λ _ v h s e. subst (λ u. IsTracked u v) (same_bridge t s e) h)
            (insert-Tracks pg t w)
      by_parse absent = (IsFollowed-refl w w.faults, λ t e. not_found t absent e (inl refl))
      by_parse failed = (IsFollowed-refl w w.faults, λ t e. not_found t failed e (inr refl))
      by_parse crashed = IsFollowed-refl w w.faults

  -- The loop of `syncQueue`, if it ends well, has every row read, and the id of the last one.
  queue_rows-Tracks :
      (rows : List QueueRow) (last : ℕ) (w : World)
      → Tracks
          (λ l v. All (IsRead v) rows × (l ≡ last_key (λ r. r.id) last rows))
          w
          (queue_rows pg chains rows last w)
  unfolding queue_rows
  queue_rows-Tracks [] last w = (IsFollowed-refl w w.faults, (tt, refl))
  queue_rows-Tracks (row ∷ rows) last w =
      Tracks-bind (λ _ v. IsRead v row)
        (λ l v. All (IsRead v) (row ∷ rows) × (l ≡ last_key (λ r. r.id) row.id rows))
        (insert_parsed pg (parse row.id row.item row.created_at chains))
        (λ _. queue_rows pg chains rows row.id) w (row-Tracks row w)
        λ _ v f read.
          later v (queue_rows pg chains rows row.id v) read (queue_rows-Tracks rows row.id v)
    where
      later :
          (v : World) (x : Result ℕ × World)
          → IsRead v row
          → Tracks (λ l u. All (IsRead u) rows × (l ≡ last_key (λ r. r.id) row.id rows)) v x
          → Tracks (λ l u. All (IsRead u) (row ∷ rows) × (l ≡ last_key (λ r. r.id) row.id rows)) v x
      later v (ok l, u) read h = (h.0, (((λ t e. h.0.tracked t (read t e)), h.1.0), h.1.1))
      later v (err e, u) read h = h
      later v (crash, u) read h = h

  -- Every row of the queue that is not above the cursor has been read.
  pub record IsCursorSound (w : World) : Type 0 where
    pub reads :
        (row : QueueRow) → In row w.queue → row.id ≤ cursor_of queue_cursor w.cursors → IsRead w row

  IsFollowed-IsCursorSound : (w v : World) → IsFollowed w v → IsCursorSound w → IsCursorSound v
  IsFollowed-IsCursorSound w v f h = record {
    reads = λ row i below t e. f.tracked t (
        h.reads row (subst (In row) f.same_queue i)
          (subst (λ cs. row.id ≤ cursor_of queue_cursor cs) f.same_cursors below) t e);
  }

  sound-bind :
      {A B : Type 0} (P : A → World → Type 0) (m : M A) (f : A → M B) (w : World)
      → IsCursorSound w
      → Tracks P w (m w)
      → ((a : A) (v : World) → IsFollowed w v → P a v → IsCursorSound v → IsCursorSound (f a v).1)
      → IsCursorSound ((m >>= f) w).1
  sound-bind {A} {B} P m f w sound h k = by_result (m w).0 (m w).1 h
    where
      by_result : (r : Result A) (v : World) → Tracks P w (r, v) → IsCursorSound (continue r f v).1
      by_result (ok a) v h = k a v h.0 h.1 (IsFollowed-IsCursorSound w v h.0 sound)
      by_result (err e) v h = IsFollowed-IsCursorSound w v h sound
      by_result crash v h = IsFollowed-IsCursorSound w v h sound

  -- The cursor may move to a number that all the rows up to it have been read for.
  advance_cursor-IsCursorSound :
      (l : ℕ) (w : World)
      → IsCursorSound w
      → ((row : QueueRow) → In row w.queue → row.id ≤ l → IsRead w row)
      → IsCursorSound (advance_cursor queue_cursor l w).1
  unfolding advance_cursor set_cursor
  advance_cursor-IsCursorSound l w sound read = elim (Bool-cases (ltb 0 l)) [
    | inl e ↦
        rw (advance_cursor, e)
          (result_cases (λ x. IsCursorSound x.1) _ w (λ f e. record { reads = sound.reads })
            λ f. record {
              reads = λ row i below.
                  read row i
                    (subst (λ c. row.id ≤ c) (cursor_of-upsert queue_cursor l w.cursors) below);
            })
    | inr e ↦ rw (advance_cursor, e) sound
  ]

  abbrev batch_of : ℕ → ℕ → World → List QueueRow
  batch_of n c u = take n (sort_by (λ r. r.id) (keep (λ r. ltb c r.id) u.queue))

  -- Up to the last row of the batch, the rows are below the cursor or in the batch.
  reaches :
      (n c : ℕ) (rows : List QueueRow) (u x : World)
      → rows ≡ batch_of n c u
      → c ≡ cursor_of queue_cursor x.cursors
      → x.queue ≡ u.queue
      → IsDistinctBy (λ r. r.id) x.queue
      → IsCursorSound x
      → All (IsRead x) rows
      → (row : QueueRow) → In row x.queue
      → row.id ≤ last_key (λ r. r.id) 0 rows
      → IsRead x row
  reaches n c rows u x is at same ids sound read row i below = elim (Bool-cases (ltb c row.id)) [
    | inl above ↦ All-In (IsRead x) rows row read (
        subst (In row) (sym whole) (
          In-batch (λ r. r.id) n c (λ r. ltb c r.id) row x.queue ids (λ r h. ground arith) i above
            (subst (λ rs. row.id ≤ last_key (λ r. r.id) 0 rs) whole below)))
    | inr low ↦ sound.reads row i (ground (arith, at, low))
  ]
    where
      whole : rows ≡ batch_of n c x
      whole = is ∙ ap (λ q. take n (sort_by (λ r. r.id) (keep (λ r. ltb c r.id) q))) (sym same)

  -- If all rows of the queue up to the cursor have been read, so they have after a pass over the queue,
  -- whatever statements fail: the cursor passes over no row that parses to a bridge.
  pub sync_queue-IsCursorSound :
      (batch_size : ℤ) (w : World)
      → IsDistinctBy (λ r. r.id) w.queue
      → IsCursorSound w
      → IsCursorSound (sync_queue pg batch_size chains w).1
  unfolding sync_queue get_cursor batch
  sync_queue-IsCursorSound (negsuc n) w ids sound =
      sound-bind (λ c v. c ≡ cursor_of queue_cursor v.cursors) (get_cursor queue_cursor) _ w sound
        (query-Tracks (λ v. cursor_of queue_cursor v.cursors) w) (λ c v f e s. s)
  sync_queue-IsCursorSound (pos n) w ids sound =
      sound-bind (λ c v. c ≡ cursor_of queue_cursor v.cursors) (get_cursor queue_cursor) _ w sound
        (query-Tracks (λ v. cursor_of queue_cursor v.cursors) w)
        λ c v f at sound_v.
          sound-bind (λ rows u. rows ≡ batch_of n c u) (batch (λ r. r.id) (λ u. u.queue) c (pos n))
            _ v sound_v (query-Tracks (batch_of n c) v)
            λ rows u g is sound_u.
              sound-bind (λ l x. All (IsRead x) rows × (l ≡ last_key (λ r. r.id) 0 rows))
                (queue_rows pg chains rows 0) _ u sound_u (queue_rows-Tracks rows 0 u)
                λ l x h read sound_x. advance_cursor-IsCursorSound l x sound_x λ row i below.
                  reaches n c rows u x is
                    (at ∙ sym (ap (cursor_of queue_cursor) (h.same_cursors ∙ g.same_cursors)))
                    h.same_queue
                    (subst (IsDistinctBy (λ r. r.id))
                      (sym (h.same_queue ∙ g.same_queue ∙ f.same_queue)) ids)
                    sound_x read.0 row i (subst (λ k. row.id ≤ k) read.1 below)
