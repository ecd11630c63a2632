-- ===== src/Db/Dedupe.antt =====
-- internal/db/bridge.go: `DedupeByPacketHash` keeps the best row of every packet hash, and no other.
use gno_ibc_relayer_api.Prelude.{
  ◌≡◌, ◌<◌, ◌≢◌, ◌↔◌, refl, sym, ap, ◌∙◌, subst, ◌⊎◌, inl, inr, Bool, true, false, not, ◌&&◌, List,
  [], ◌∷◌, arith, ◌==◌, All, any, keep, Bool-cases,
}
use gno_ibc_relayer_api.Prelude.Membership.{
  In, All-In, In-All, In-keep, any-none, length-keep_none, Bool-apart,
}
use gno_ibc_relayer_api.Prelude.Strings.{str_eq_iff}
use gno_ibc_relayer_api.Db.Record.{BridgeRecord, status_priority}
use gno_ibc_relayer_api.Db.Table.{precedes, same_hash, row_number, outranked, dedupe_rows}
use gno_ibc_relayer_api.Db.Unique.{IsFree, IsUniqueBy, IsTable}

-- The row comes before the other in the window of their packet hash.
abbrev pub beats : BridgeRecord → BridgeRecord → Bool
beats s r = same_hash s r && precedes s r

-- No row of the list beats it.
abbrev pub IsBest : List BridgeRecord → BridgeRecord → Type 0
IsBest rows r = All (λ s. beats s r ≡ false) rows

same_hash_iff : (s r : BridgeRecord) → (same_hash s r ≡ true) ↔ (s.packet_hash ≡ r.packet_hash)
unfolding same_hash
same_hash_iff s r = str_eq_iff s.packet_hash r.packet_hash

precedes_trans :
    (s x r : BridgeRecord) → precedes s x ≡ true → precedes x r ≡ true → precedes s r ≡ true
unfolding precedes
precedes_trans s x r h k = ground arith

precedes_total : (s r : BridgeRecord) → s.id ≢ r.id → (precedes s r ≡ true) ⊎ (precedes r s ≡ true)
unfolding precedes
precedes_total s r h = ground arith

beats_trans : (s x r : BridgeRecord) → beats s x ≡ true → beats x r ≡ true → beats s r ≡ true
beats_trans s x r h k =
    ground (arith, same_hash_iff s x, same_hash_iff x r, same_hash_iff s r, precedes_trans s x r)

beats_total :
    (s r : BridgeRecord)
    → s.id ≢ r.id
    → s.packet_hash ≡ r.packet_hash
    → (beats s r ≡ true) ⊎ (beats r s ≡ true)
beats_total s r h e = ground (arith, precedes_total s r, same_hash_iff s r, same_hash_iff r s)

-- A row is removed only if one of its id is beaten.
kept : List BridgeRecord → BridgeRecord → Bool
kept rows r = not (any (λ s. s.id == r.id && outranked rows s) rows)

outranked_iff :
    (rows : List BridgeRecord) (r : BridgeRecord) → (outranked rows r ≡ false) ↔ IsBest rows r
unfolding outranked row_number
outranked_iff rows r = ground (arith, length-keep_none (λ s. beats s r) rows)

-- With distinct ids, rows of one id are one row.
one_row :
    (rows : List BridgeRecord) (r s : BridgeRecord)
    → IsUniqueBy (λ t. t.id) rows
    → In r rows
    → In s rows
    → s.id ≡ r.id
    → s ≡ r
one_row [] r s u i j e = absurd i
one_row (t ∷ rows) r s u (inl i) (inl j) e = j ∙ sym i
one_row (t ∷ rows) r s u (inl i) (inr j) e = absurd (All-In _ rows s u.0 j (e ∙ ap (λ x. x.id) i))
one_row (t ∷ rows) r s u (inr i) (inl j) e =
    absurd (All-In _ rows r u.0 i (sym e ∙ ap (λ x. x.id) j))
one_row (t ∷ rows) r s u (inr i) (inr j) e = one_row rows r s u.1 i j e

not_iff : (b : Bool) → (not b ≡ true) ↔ (b ≡ false)
not_iff b = ground arith

-- The test by which a row of the id is removed.
removes_at : List BridgeRecord → BridgeRecord → BridgeRecord → Bool
removes_at rows r s = s.id == r.id && outranked rows s

removes_at_self :
    (rows : List BridgeRecord) (r : BridgeRecord)
    → removes_at rows r r ≡ false
    → outranked rows r ≡ false
unfolding removes_at
removes_at_self rows r h = ground arith

removes_at-other :
    (rows : List BridgeRecord) (r s : BridgeRecord)
    → (s.id ≡ r.id → outranked rows s ≡ false)
    → removes_at rows r s ≡ false
unfolding removes_at
removes_at-other rows r s h = ground arith

kept_iff :
    (rows : List BridgeRecord) (r : BridgeRecord)
    → IsUniqueBy (λ t. t.id) rows
    → In r rows
    → (kept rows r ≡ true) ↔ IsBest rows r
unfolding kept removes_at
kept_iff rows r u i = (
  λ h. (outranked_iff rows r).0 (
      removes_at_self rows r (
        All-In _ rows r
          ((any-none (removes_at rows r) rows).0 ((not_iff (any (removes_at rows r) rows)).0 h))
          i)),
  λ best. (not_iff (any (removes_at rows r) rows)).1 (
      (any-none (removes_at rows r) rows).1 (
        In-All _ rows λ s j. removes_at-other rows r s λ same.
          subst (λ t. outranked rows t ≡ false) (sym (one_row rows r s u i j same))
            ((outranked_iff rows r).1 best))),
)

-- With distinct ids, the rows that are left are those that no row beats.
dedupe_rows-IsBest :
    (rows : List BridgeRecord) (r : BridgeRecord)
    → IsUniqueBy (λ t. t.id) rows
    → In r (dedupe_rows rows) ↔ (In r rows × IsBest rows r)
unfolding dedupe_rows kept
dedupe_rows-IsBest rows r u = (
  λ i. let (j, k) = (In-keep (kept rows) rows r).0 i in (j, (kept_iff rows r u j).0 k),
  λ h. (In-keep (kept rows) rows r).1 (h.0, (kept_iff rows r u h.0).1 h.1),
)

-- Neither done (2), failed (3) nor processing (1).
abbrev pub IsDetected : BridgeRecord → Type 0
IsDetected r = (r.status ≢ 1) × (r.status ≢ 2) × (r.status ≢ 3)

-- A done row is better than any other, a failed one than those below done, a processing one than
-- the detected; of two done, failed, processing or detected rows the lower id is better.
abbrev pub IsBetter : BridgeRecord → BridgeRecord → Type 0
IsBetter s r =
    ((s.status ≡ 2) × (r.status ≢ 2))
    ⊎ ((s.status ≡ 3) × (r.status ≢ 2) × (r.status ≢ 3))
    ⊎ ((s.status ≡ 1) × IsDetected r)
    ⊎ (((s.status ≡ r.status) ⊎ (IsDetected s × IsDetected r)) × (s.id < r.id))

precedes_iff : (s r : BridgeRecord) → (precedes s r ≡ true) ↔ IsBetter s r
unfolding precedes status_priority
precedes_iff s r = ground arith

-- No row of the packet hash is better.
abbrev pub IsBestOfHash : List BridgeRecord → BridgeRecord → Type 0
IsBestOfHash rows r = All (λ s. ¬ ((s.packet_hash ≡ r.packet_hash) × IsBetter s r)) rows

not_beats_iff :
    (s r : BridgeRecord)
    → (beats s r ≡ false) ↔ (¬ ((s.packet_hash ≡ r.packet_hash) × IsBetter s r))
not_beats_iff s r = (
  λ e h. Bool-apart (beats s r) (beaten ((same_hash_iff s r).1 h.0) ((precedes_iff s r).1 h.1)) e,
  λ h. elim (Bool-cases (beats s r)) [
    | inl e ↦ absurd (h ((same_hash_iff s r).0 (first e), (precedes_iff s r).0 (second e)))
    | inr e ↦ e
  ],
)
  where
    beaten : same_hash s r ≡ true → precedes s r ≡ true → beats s r ≡ true
    beaten h k = ground (arith, h, k)

    first : beats s r ≡ true → same_hash s r ≡ true
    first e = ground arith

    second : beats s r ≡ true → precedes s r ≡ true
    second e = ground arith

IsBest-iff : (rows : List BridgeRecord) (r : BridgeRecord) → IsBest rows r ↔ IsBestOfHash rows r
IsBest-iff [] r = (λ h. h, λ h. h)
IsBest-iff (s ∷ rows) r =
    let here = not_beats_iff s r in
    let rest = IsBest-iff rows r in (λ h. (here.0 h.0, rest.0 h.1), λ h. (here.1 h.0, rest.1 h.1))

-- On a table of distinct ids, `DedupeByPacketHash` leaves exactly the rows of
-- which no row of the same packet hash is better: done (2) before failed (3) before processing (1)
-- before all others, which count as detected, and of equal ones the lower id.
pub In-dedupe_rows :
    (rows : List BridgeRecord) (r : BridgeRecord)
    → IsUniqueBy (λ t. t.id) rows
    → In r (dedupe_rows rows) ↔ (In r rows × IsBestOfHash rows r)
In-dedupe_rows rows r u = (
  λ i. let (j, best) = (dedupe_rows-IsBest rows r u).0 i in (j, (IsBest-iff rows r).0 best),
  λ h. (dedupe_rows-IsBest rows r u).1 (h.0, (IsBest-iff rows r).1 h.1),
)

beats_irrefl : (r : BridgeRecord) → beats r r ≡ false
unfolding precedes
beats_irrefl r = ground arith

unbeaten_by : (s x m : BridgeRecord) → beats x m ≡ true → beats s m ≡ false → beats s x ≡ false
unbeaten_by s x m h k = ground (arith, beats_trans s x m)

beats-packet_hash : (x m : BridgeRecord) → beats x m ≡ true → x.packet_hash ≡ m.packet_hash
beats-packet_hash x m h = ground (arith, same_hash_iff x m)

-- From a row on, a best row of its packet hash.
IsBest-from :
    (r : BridgeRecord) (xs : List BridgeRecord)
    → (m : BridgeRecord) × ((m ≡ r) ⊎ In m xs) × (m.packet_hash ≡ r.packet_hash) × IsBest xs m
IsBest-from r [] = (r, inl refl, refl, tt)
IsBest-from r (x ∷ xs) =
    let (m, place, same, best) = IsBest-from r xs in
    elim (Bool-cases (beats x m)) [
      | inl better ↦ (
        x,
        inr (inl refl),
        beats-packet_hash x m better ∙ same,
        (beats_irrefl x, In-All _ xs (λ s i. unbeaten_by s x m better (All-In _ xs s best i))),
      )
      | inr worse ↦ (m, elim place [ inl e ↦ inl e | inr i ↦ inr (inr i) ], same, (worse, best))
    ]

-- With distinct ids, every row has a row of its packet hash among those that `DedupeByPacketHash`
-- leaves: no packet is lost.
pub dedupe_rows-covers :
    (rows : List BridgeRecord) (r : BridgeRecord)
    → IsUniqueBy (λ t. t.id) rows
    → In r rows
    → (m : BridgeRecord) × In m (dedupe_rows rows) × (m.packet_hash ≡ r.packet_hash)
dedupe_rows-covers rows r u i =
    let (m, place, same, best) = IsBest-from r rows in
    let here : In m rows = elim place [ inl e ↦ subst (λ t. In t rows) (sym e) i | inr j ↦ j ] in
    (m, (dedupe_rows-IsBest rows m u).1 (here, best), same)

keep-IsFree :
    {K : Type 0} (key : BridgeRecord → K) (p : BridgeRecord → Bool) (k : K)
    (rows : List BridgeRecord)
    → IsFree key k rows
    → IsFree key k (keep p rows)
keep-IsFree key p k rows h =
    In-All _ (keep p rows) (λ s i. All-In _ rows s h ((In-keep p rows s).0 i).0)

keep-IsUniqueBy :
    {K : Type 0} (key : BridgeRecord → K) (p : BridgeRecord → Bool) (rows : List BridgeRecord)
    → IsUniqueBy key rows
    → IsUniqueBy key (keep p rows)
unfolding keep
keep-IsUniqueBy key p [] u = tt
keep-IsUniqueBy key p (r ∷ rows) u = elim (Bool-cases (p r)) [
  | inl e ↦ rw (e, IsUniqueBy) (keep-IsFree key p (key r) rows u.0, keep-IsUniqueBy key p rows u.1)
  | inr e ↦ rw (e, IsUniqueBy) (keep-IsUniqueBy key p rows u.1)
]

-- Rows that none of them beats have distinct packet hashes, if they have distinct ids.
best-IsUniqueBy :
    (rows : List BridgeRecord)
    → IsUniqueBy (λ r. r.id) rows
    → ((r s : BridgeRecord) → In r rows → In s rows → beats s r ≡ false)
    → IsUniqueBy (λ r. r.packet_hash) rows
best-IsUniqueBy [] u best = tt
best-IsUniqueBy (r ∷ rows) u best = (
  In-All _ rows (λ s i same.
      unequal s r (All-In _ rows s u.0 i) same (best r s (inl refl) (inr i))
        (best s r (inr i) (inl refl))),
  best-IsUniqueBy rows u.1 (λ x y i j. best x y (inr i) (inr j)),
)
  where
    unequal :
        (s r : BridgeRecord)
        → s.id ≢ r.id
        → s.packet_hash ≡ r.packet_hash
        → beats s r ≡ false
        → beats r s ≡ false
        → ⊥
    unequal s r ids same h k = ground (arith, beats_total s r ids same)

-- With distinct ids, `DedupeByPacketHash` leaves a table with distinct ids and packet hashes.
pub dedupe_rows-IsTable :
    (rows : List BridgeRecord) → IsUniqueBy (λ r. r.id) rows → IsTable (dedupe_rows rows)
dedupe_rows-IsTable rows u =
    let ids : IsUniqueBy (λ r. r.id) (dedupe_rows rows) =
      unfold dedupe_rows in keep-IsUniqueBy (λ r. r.id) _ rows u in
    (
      ids,
      best-IsUniqueBy (dedupe_rows rows) ids λ r s i j.
          All-In _ rows s ((dedupe_rows-IsBest rows r u).0 i).1
            ((dedupe_rows-IsBest rows s u).0 j).0,
    )
