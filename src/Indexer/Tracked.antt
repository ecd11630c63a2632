-- ===== src/Indexer/Tracked.antt =====
-- internal/db/bridge.go: what `Insert` leaves in the table of transfers.
use gno_ibc_relayer_api.Prelude.{
  ℕ, ◌≡◌, refl, sym, subst, ◌∙◌, Bool, true, false, ◌||◌, Option, none, some, List, [], ◌∷◌, ◌++◌,
  inl, inr, arith, ltb, ◌==◌, any, keep, Bool-cases, ◌⊎◌,
}
use gno_ibc_relayer_api.Prelude.Strings.{Bytes, str_eq, str_eq_refl}
use gno_ibc_relayer_api.Prelude.Membership.{In, In-keep, Bool-apart}
use gno_ibc_relayer_api.Db.Record.{BridgeRecord, status_priority}
use gno_ibc_relayer_api.Db.World.{World, Result, ok, err, crash, M, ◌>>=◌, query, continue}
use gno_ibc_relayer_api.Db.Statements.{result_cases, query_cases}
use gno_ibc_relayer_api.Db.Table.{Postgres, update, insert_row}
use gno_ibc_relayer_api.Db.Bridge.{
  exec, insert, insert_or_advance, new_row, cursor_of, upsert_cursor,
}
use gno_ibc_relayer_api.Indexer.Fields.{Parsed, found, absent, failed}

-- A row of the packet hash, or of the id, of the bridge is in the table.
abbrev matches : BridgeRecord → BridgeRecord → Bool
matches t r = (r.id == t.id) || str_eq r.packet_hash t.packet_hash

abbrev pub IsTracked : BridgeRecord → World → Type 0
IsTracked t w = any (matches t) w.transfers ≡ true

any-append_left :
    {A : Type 0} (p : A → Bool) (xs ys : List A) → any p xs ≡ true → any p (xs ++ ys) ≡ true
unfolding any
any-append_left p [] ys h = absurd (Bool-apart false h refl)
any-append_left p (x ∷ xs) ys h = ground (arith, any-append_left p xs ys)

any-append_last :
    {A : Type 0} (p : A → Bool) (xs : List A) (x : A) → p x ≡ true → any p (xs ++ x ∷ []) ≡ true
unfolding any
any-append_last p [] x h = ground arith
any-append_last p (y ∷ xs) x h = ground (arith, any-append_last p xs x h)

In-any : {A : Type 0} (p : A → Bool) (xs : List A) (x : A) → In x xs → p x ≡ true → any p xs ≡ true
unfolding any
In-any p [] x i h = absurd i
In-any p (y ∷ xs) x (inl e) h = let k : p y ≡ true = subst (λ z. p z ≡ true) e h in ground arith
In-any p (y ∷ xs) x (inr i) h = ground (arith, In-any p xs x i h)

any-update :
    (q p : BridgeRecord → Bool) (f : BridgeRecord → BridgeRecord) (rows : List BridgeRecord)
    → ((r : BridgeRecord) → q (f r) ≡ q r)
    → any q (update p f rows) ≡ any q rows
unfolding any update
any-update q p f [] h = refl
any-update q p f (r ∷ rows) h = ground (arith, h r, any-update q p f rows h)

insert_row-keeps :
    (t s : BridgeRecord) (rows : List BridgeRecord)
    → any (matches t) rows ≡ true
    → any (matches t) (insert_row s rows) ≡ true
unfolding insert_row
insert_row-keeps t s rows h = elim (Bool-cases (any (λ r. r.id == s.id) rows)) [
  | inl e ↦ rw (insert_row, e) h
  | inr e ↦ rw (insert_row, e) (any-append_left (matches t) rows (s ∷ []) h)
]

any-or :
    {A : Type 0} (p q : A → Bool) (xs : List A) → any p xs ≡ true → any (λ x. p x || q x) xs ≡ true
unfolding any
any-or p q [] h = absurd (Bool-apart false h refl)
any-or p q (x ∷ xs) h = ground (arith, any-or p q xs)

insert_row-tracks :
    (t : BridgeRecord) (rows : List BridgeRecord)
    → any (matches t) (insert_row (new_row t) rows) ≡ true
unfolding insert_row
insert_row-tracks t rows = elim (Bool-cases (any (λ r. r.id == t.id) rows)) [
  | inl e ↦
      rw (insert_row, e)
        (any-or (λ r. r.id == t.id) (λ r. str_eq r.packet_hash t.packet_hash) rows e)
  | inr e ↦
      rw (insert_row, e)
        (any-append_last (matches t) rows (new_row t) (ground (arith, str_eq_refl t.packet_hash)))
]

pub cursor_of-upsert :
    (name : Bytes) (i : ℕ) (cs : List (Bytes × ℕ)) → cursor_of name (upsert_cursor name i cs) ≡ i
unfolding cursor_of upsert_cursor
cursor_of-upsert name i [] = ground (arith, str_eq_refl name)
cursor_of-upsert name i ((n, j) ∷ cs) = ground (arith, cursor_of-upsert name i cs)

-- What is tracked stays so, and the queue and the cursors are as they were.
pub record IsFollowed (w v : World) : Type 0 where
  pub same_cursors : v.cursors ≡ w.cursors
  pub same_queue : v.queue ≡ w.queue
  pub tracked : (t : BridgeRecord) → IsTracked t w → IsTracked t v

pub IsFollowed-refl : (w : World) (l : List Bool) → IsFollowed w (record w { faults = l })
IsFollowed-refl w l = record { same_cursors = refl; same_queue = refl; tracked = λ t h. h }

pub IsFollowed-trans : (u v w : World) → IsFollowed u v → IsFollowed v w → IsFollowed u w
IsFollowed-trans u v w f g = record {
  same_cursors = g.same_cursors ∙ f.same_cursors;
  same_queue = g.same_queue ∙ f.same_queue;
  tracked = λ t h. g.tracked t (f.tracked t h);
}

-- What an insertion does: a success leaves the bridge tracked.
abbrev pub Tracks : {A : Type 0} → (A → World → Type 0) → World → Result A × World → Type 0
Tracks P w (ok a, v) = IsFollowed w v × P a v
Tracks P w (_, v) = IsFollowed w v

exec-Tracks :
    (t : BridgeRecord) (f : List BridgeRecord → List BridgeRecord) (w : World)
    → ((s : BridgeRecord)
        → any (matches s) w.transfers ≡ true
        → any (matches s) (f w.transfers) ≡ true)
    → any (matches t) (f w.transfers) ≡ true
    → Tracks (λ _. IsTracked t) w (exec f w)
unfolding exec
exec-Tracks t f w keeps tracks =
    result_cases (Tracks (λ _. IsTracked t) w) _ w (λ l e. IsFollowed-refl w l)
      (λ l. (record { same_cursors = refl; same_queue = refl; tracked = keeps }, tracks))

pub insert_or_advance-Tracks :
    (t : BridgeRecord) (o : Option BridgeRecord) (w : World)
    → ((r : BridgeRecord)
        → o ≡ some r
        → In r (keep (λ s. str_eq s.packet_hash t.packet_hash) w.transfers))
    → Tracks (λ _. IsTracked t) w (insert_or_advance t o w)
unfolding insert_or_advance
insert_or_advance-Tracks t none w h =
    exec-Tracks t (insert_row (new_row t)) w (λ s. insert_row-keeps s (new_row t) w.transfers)
      (insert_row-tracks t w.transfers)
insert_or_advance-Tracks t (some old) w h =
    elim (Bool-cases (ltb (status_priority t.status) (status_priority old.status))) [
      | inl e ↦
          rw (insert_or_advance, e)
            (exec-Tracks t (update (λ r. r.id == old.id) (λ r. record r { status = t.status })) w
              (λ s k. any-update (matches s) _ _ w.transfers (λ r. refl) ∙ k)
              (any-update (matches t) _ _ w.transfers (λ r. refl) ∙ there))
      | inr e ↦ rw (insert_or_advance, e) (IsFollowed-refl w w.faults, there)
    ]
  where
    there : IsTracked t w
    there =
        let (i, same) =
          (In-keep (λ s. str_eq s.packet_hash t.packet_hash) w.transfers old).0 (h old refl) in
        In-any (matches t) w.transfers old i (ground (arith, same))

pub weaken :
    {A : Type 0} {P Q : A → World → Type 0} (w : World) (x : Result A × World)
    → ((a : A) (v : World) → P a v → Q a v)
    → Tracks P w x
    → Tracks Q w x
weaken w (ok a, v) f h = (h.0, f a v h.1)
weaken w (err e, v) f h = h
weaken w (crash, v) f h = h

pub same_bridge : (t s : BridgeRecord) → found t ≡ found s → t ≡ s
same_bridge t s e = cc

module _ {A B : Type 0} (P : A → World → Type 0) (Q : B → World → Type 0) where
  widen : (w v : World) (x : Result B × World) → IsFollowed w v → Tracks Q v x → Tracks Q w x
  widen w v (ok b, u) f h = (IsFollowed-trans w v u f h.0, h.1)
  widen w v (err e, u) f h = IsFollowed-trans w v u f h
  widen w v (crash, u) f h = IsFollowed-trans w v u f h

  pub Tracks-bind :
      (m : M A) (f : A → M B) (w : World)
      → Tracks P w (m w)
      → ((a : A) (v : World) → IsFollowed w v → P a v → Tracks Q v (f a v))
      → Tracks Q w ((m >>= f) w)
  Tracks-bind m f w h k = by_result (m w).0 (m w).1 h
    where
      by_result : (r : Result A) (v : World) → Tracks P w (r, v) → Tracks Q w (continue r f v)
      by_result (ok a) v h = widen w v (f a v) h.0 (k a v h.0 h.1)
      by_result (err e) v h = h
      by_result crash v h = h

-- The answer of a query is that of the tables.
pub query-Tracks : {A : Type 0} (f : World → A) (w : World) → Tracks (λ a v. a ≡ f v) w (query f w)
query-Tracks f w =
    query_cases (Tracks (λ a v. a ≡ f v) w) f w (λ l e. IsFollowed-refl w l)
      (λ l. (IsFollowed-refl w l, refl))

pub not_found :
    {P : Type 0} (t : BridgeRecord) (p : Parsed BridgeRecord)
    → p ≡ found t
    → (p ≡ absent) ⊎ (p ≡ failed)
    → P
not_found t p e (inl h) = cc
not_found t p e (inr h) = cc

module _ (pg : Postgres) where
  pub insert-Tracks : (t : BridgeRecord) (w : World) → Tracks (λ _. IsTracked t) w (insert pg t w)
  unfolding insert
  insert-Tracks t w =
      Tracks-bind (λ o v. o ≡ pg.pick (same v)) (λ _. IsTracked t) (query (λ v. pg.pick (same v)))
        (insert_or_advance t) w (query-Tracks (λ v. pg.pick (same v)) w)
        (λ o v f e. insert_or_advance-Tracks t o v (λ r k. pg.pick_some (same v) r (sym e ∙ k)))
    where
      same : World → List BridgeRecord
      same v = keep (λ r. str_eq r.packet_hash t.packet_hash) v.transfers
