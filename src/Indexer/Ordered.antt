-- ===== src/Indexer/Ordered.antt =====
-- internal/indexer/sync.go: `ORDER BY id LIMIT $2` leaves out no row below the last one.
use gno_ibc_relayer_api.Prelude.{
  ℕ, zero, suc, ◌≤◌, ◌<◌, ◌≡◌, ◌≢◌, Bool, true, List, [], ◌∷◌, inl, inr, arith, leb, All, keep,
  take, Bool-cases, ◌⊎◌,
}
use gno_ibc_relayer_api.Prelude.Membership.{In, All-In, In-All, In-keep}
use gno_ibc_relayer_api.Indexer.Batches.{insert_by, sort_by}

module _ {A : Type 0} (key : A → ℕ) where
  -- No two rows have one key.
  abbrev pub IsDistinctBy : List A → Type 0
  IsDistinctBy [] = Unit
  IsDistinctBy (a ∷ xs) = All (λ x. key x ≢ key a) xs × IsDistinctBy xs

  -- The keys increase.
  abbrev pub IsAscending : List A → Type 0
  IsAscending [] = Unit
  IsAscending (a ∷ xs) = All (λ x. key a < key x) xs × IsAscending xs

  -- The key of the last row.
  abbrev pub last_key : ℕ → List A → ℕ
  last_key l [] = l
  last_key l (a ∷ xs) = last_key (key a) xs

  keep-IsDistinctBy : (p : A → Bool) (xs : List A) → IsDistinctBy xs → IsDistinctBy (keep p xs)
  unfolding keep
  keep-IsDistinctBy p [] h = tt
  keep-IsDistinctBy p (a ∷ xs) h = elim (Bool-cases (p a)) [
    | inl e ↦
        rw (IsDistinctBy, keep, e)
          (
            In-All _ (keep p xs) (λ x i. All-In _ xs x h.0 ((In-keep p xs x).0 i).0),
            keep-IsDistinctBy p xs h.1,
          )
    | inr e ↦ rw (IsDistinctBy, keep, e) (keep-IsDistinctBy p xs h.1)
  ]

  insert_by-All :
      (P : A → Type 0) (a : A) (xs : List A) → P a → All P xs → All P (insert_by key a xs)
  unfolding insert_by
  insert_by-All P a [] h hs = (h, tt)
  insert_by-All P a (b ∷ xs) h hs = elim (Bool-cases (leb (key a) (key b))) [
    | inl e ↦ rw e (h, hs)
    | inr e ↦ rw e (hs.0, insert_by-All P a xs h hs.1)
  ]

  sort_by-All : (P : A → Type 0) (xs : List A) → All P xs → All P (sort_by key xs)
  unfolding sort_by
  sort_by-All P [] h = tt
  sort_by-All P (a ∷ xs) h = insert_by-All P a (sort_by key xs) h.0 (sort_by-All P xs h.1)

  All-below : (m n : ℕ) (xs : List A) → m < n → All (λ x. n < key x) xs → All (λ x. m < key x) xs
  All-below m n [] h hs = tt
  All-below m n (x ∷ xs) h hs = (omega (arith, hs.0), All-below m n xs h hs.1)

  insert_by-IsAscending :
      (a : A) (xs : List A)
      → All (λ x. key x ≢ key a) xs
      → IsAscending xs
      → IsAscending (insert_by key a xs)
  unfolding insert_by
  insert_by-IsAscending a [] h s = (tt, tt)
  insert_by-IsAscending a (b ∷ xs) h s = elim (Bool-cases (leb (key a) (key b))) [
    | inl e ↦
        let less : key a < key b = ground (arith, h.0) in
        rw e ((less, All-below (key a) (key b) xs less s.0), s)
    | inr e ↦ rw e (
      insert_by-All (λ x. key b < key x) a xs (ground arith) s.0,
      insert_by-IsAscending a xs h.1 s.1,
    )
  ]

  -- Sorting rows of distinct keys makes them increase.
  sort_by-IsAscending : (xs : List A) → IsDistinctBy xs → IsAscending (sort_by key xs)
  unfolding sort_by
  sort_by-IsAscending [] h = tt
  sort_by-IsAscending (a ∷ xs) h =
      insert_by-IsAscending a (sort_by key xs) (sort_by-All (λ x. key x ≢ key a) xs h.0)
        (sort_by-IsAscending xs h.1)

  In-insert_by : (a x : A) (xs : List A) → (x ≡ a) ⊎ In x xs → In x (insert_by key a xs)
  unfolding insert_by
  In-insert_by a x [] h = h
  In-insert_by a x (b ∷ xs) h = elim (Bool-cases (leb (key a) (key b))) [
    | inl e ↦ rw (insert_by, e) h
    | inr e ↦
        rw (insert_by, e)
          (elim h [
            | inl same ↦ inr (In-insert_by a x xs (inl same))
            | inr (inl here) ↦ inl here
            | inr (inr i) ↦ inr (In-insert_by a x xs (inr i))
          ])
  ]

  In-sort_by : (x : A) (xs : List A) → In x xs → In x (sort_by key xs)
  unfolding sort_by
  In-sort_by x [] i = i
  In-sort_by x (a ∷ xs) (inl e) = In-insert_by a x (sort_by key xs) (inl e)
  In-sort_by x (a ∷ xs) (inr i) = In-insert_by a x (sort_by key xs) (inr (In-sort_by x xs i))

  -- A row that is not above the last of the first rows is among them.
  In-take :
      (n l : ℕ) (x : A) (xs : List A)
      → IsAscending xs
      → All (λ y. l < key y) xs
      → In x xs
      → key x ≤ last_key l (take n xs)
      → In x (take n xs)
  In-take zero l x xs s above i h =
      absurd (let k : l < key x = All-In _ xs x above i in omega arith)
  In-take (suc n) l x [] s above i h = i
  In-take (suc n) l x (a ∷ xs) s above (inl e) h = inl e
  In-take (suc n) l x (a ∷ xs) s above (inr i) h = inr (In-take n (key a) x xs s.1 s.0 i h)

  -- A row above the cursor and not above the last row of the batch is in the batch.
  pub In-batch :
      (n cursor : ℕ) (p : A → Bool) (x : A) (table : List A)
      → IsDistinctBy table
      → ((y : A) → p y ≡ true → 0 < key y)
      → In x table
      → p x ≡ true
      → key x ≤ last_key 0 (take n (sort_by key (keep p table)))
      → In x (take n (sort_by key (keep p table)))
  In-batch n cursor p x table d positive i q h =
      In-take n 0 x (sort_by key (keep p table))
        (sort_by-IsAscending (keep p table) (keep-IsDistinctBy p table d))
        (sort_by-All (λ y. 0 < key y) (keep p table)
          (In-All _ (keep p table) (λ y j. positive y ((In-keep p table y).0 j).1)))
        (In-sort_by x (keep p table) ((In-keep p table x).1 (i, q))) h
