-- ===== src/Indexer/CleanItems.antt =====
-- internal/indexer/parser.go: the calls of a multicall and the entries of a batch, of an item in which a
-- LIKE pattern matches nothing.
use gno_ibc_relayer_api.Prelude.{◌≡◌, true, false, Option, none, some, List, [], ◌∷◌, All}
use gno_ibc_relayer_api.Prelude.Strings.{Bytes, str_eq}
use gno_ibc_relayer_api.Json.{
  Json, Items, Raw, null, array, nil, cons, members_of, elements, string_at, struct_at, int_at,
  raw_at,
}
use gno_ibc_relayer_api.Indexer.Items.{
  all_of, slice_raw, unmarshal_items, batch_entry, unmarshal_batches,
}
use gno_ibc_relayer_api.Indexer.Batches.{like, mentions, items_mention}
use gno_ibc_relayer_api.Indexer.Clean.{
  Gives, Gives-bind, Gives-any, or_false_left, or_false_right, Clean, CleanMembers, CleanTyped,
  CleanEntry, members_of-Clean, struct_at-Clean, string_at-Clean, raw_at-Clean,
  unmarshal_typed-Clean,
}

module _ (p : Bytes) (itself : like p p ≡ true) (text : str_eq [] p ≡ false) where
  elements-Clean :
      (vs : Items) → items_mention p vs ≡ false → All (λ v. mentions p v ≡ false) (elements vs)
  unfolding elements items_mention
  elements-Clean nil h = tt
  elements-Clean (cons v vs) h =
      (or_false_left (mentions p v) _ h, elements-Clean vs (or_false_right (mentions p v) _ h))

  slice_raw-Clean :
      (raw : Raw) → Clean p raw → Gives (All (λ v. mentions p v ≡ false)) (slice_raw raw)
  unfolding mentions items_mention elements
  slice_raw-Clean none h = tt
  slice_raw-Clean (some null) h = tt
  slice_raw-Clean (some (array vs)) h = elements-Clean vs h
  slice_raw-Clean (some _) h = tt

  all_of-Clean :
      {A : Type 0} (P : A → Type 0) (f : Json → Option A) (vs : List Json)
      → ((v : Json) → mentions p v ≡ false → Gives P (f v))
      → All (λ v. mentions p v ≡ false) vs
      → Gives (All P) (all_of f vs)
  unfolding all_of
  all_of-Clean P f [] h c = tt
  all_of-Clean P f (v ∷ vs) h c = Gives-bind P (All P) (f v) _ (h v c.0) λ a pa.
      Gives-bind (All P) (All P) (all_of f vs) _ (all_of-Clean P f vs h c.1) (λ rest pr. (pa, pr))

  pub unmarshal_items-Clean :
      (raw : Raw) → Clean p raw → Gives (All (CleanTyped p)) (unmarshal_items raw)
  unfolding unmarshal_items
  unmarshal_items-Clean none h = tt
  unmarshal_items-Clean (some v) h =
      Gives-bind (All (λ u. mentions p u ≡ false)) _ (slice_raw (some v)) _
        (slice_raw-Clean (some v) h)
        (λ vs c.
          all_of-Clean (CleanTyped p) _ vs (λ u. unmarshal_typed-Clean p itself text (some u)) c)

  batch_entry-Clean : (j : Json) → mentions p j ≡ false → Gives (CleanEntry p) (batch_entry j)
  unfolding batch_entry
  batch_entry-Clean j h =
      Gives-bind (CleanMembers p) _ (members_of (some j)) _
        (members_of-Clean p itself text (some j) h)
        λ ms m.
          Gives-bind (CleanMembers p) _ (struct_at "event" ms) _
            (struct_at-Clean p itself text "event" ms m)
            λ event k.
              Gives-bind (λ s. str_eq s p ≡ false) _ (string_at "@type" event) _
                (string_at-Clean p itself text "@type" event k)
                λ tag c.
                  Gives-bind (λ _. Unit {0}) _ (struct_at "@value" event) _ (Gives-any _)
                    λ i _.
                      Gives-bind (λ _. Unit {0}) _ (struct_at "packet" i) _ (Gives-any _)
                        λ q _.
                          Gives-bind (λ _. Unit {0}) _ (int_at "timeout_timestamp" q) _
                            (Gives-any _)
                            λ _ _.
                              Gives-bind (λ _. Unit {0}) _ (struct_at "source_channel" q) _
                                (Gives-any _)
                                λ s _.
                                  Gives-bind (λ _. Unit {0}) _ (int_at "channel_id" s) _
                                    (Gives-any _) (λ _ _. c)

  pub unmarshal_batches-Clean :
      (raw : Raw) → Clean p raw → Gives (All (All (CleanEntry p))) (unmarshal_batches raw)
  unfolding unmarshal_batches
  unmarshal_batches-Clean raw h =
      Gives-bind (CleanMembers p) _ (members_of raw) _ (members_of-Clean p itself text raw h)
        λ ms m.
          Gives-bind (CleanMembers p) _ (struct_at "receiver" ms) _
            (struct_at-Clean p itself text "receiver" ms m)
            λ r1 c1.
              Gives-bind (CleanMembers p) _ (struct_at "@value" r1) _
                (struct_at-Clean p itself text "@value" r1 c1)
                λ r2 c2.
                  Gives-bind (CleanMembers p) _ (struct_at "message" r2) _
                    (struct_at-Clean p itself text "message" r2 c2)
                    λ r3 c3.
                      Gives-bind (CleanMembers p) _ (struct_at "@value" r3) _
                        (struct_at-Clean p itself text "@value" r3 c3)
                        λ r4 c4.
                          Gives-bind (All (λ u. mentions p u ≡ false)) _
                            (slice_raw (raw_at "batches" r4)) _
                            (slice_raw-Clean _ (raw_at-Clean p itself text "batches" r4 c4))
                            λ bs c5.
                              all_of-Clean (All (CleanEntry p)) _ bs
                                (λ u cu.
                                  Gives-bind (All (λ x. mentions p x ≡ false)) _
                                    (slice_raw (some u)) _ (slice_raw-Clean (some u) cu)
                                    (λ es c6.
                                      all_of-Clean (CleanEntry p) _ es batch_entry-Clean c6))
                                c5
