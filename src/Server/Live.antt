-- ===== src/Server/Live.antt =====
-- internal/server/ttlcache.go: what calls at the same time have while an entry lives.
use gno_ibc_relayer_api.Prelude.{
  ℕ, ◌≡◌, refl, sym, subst, ◌∙◌, false, Option, none, some, List, [], ◌∷◌, ◌⊎◌, inl, inr,
  Bool-cases, ◌≢◌, arith,
}
use gno_ibc_relayer_api.Prelude.Strings.{Bytes, str_eq, str_eq→eq}
use gno_ibc_relayer_api.Db.World.{Result, ok, err, crash}
use gno_ibc_relayer_api.Server.Cache.{Key, get, set}
use gno_ibc_relayer_api.Server.Steps.{
  Step, stays, called, waited, began, looked, was_answered, stored, returned, move-Step,
}
use gno_ibc_relayer_api.Server.Flights.{
  Group, Phase, idle, missed, waits, entered, loading, loaded, ends, finished, Move, calls, looks,
  State, put_phase, put, first_look, answered, second_look, landed, move, moves,
}
use gno_ibc_relayer_api.Prelude.{◌≤◌, le→ltb, keep, All}
use gno_ibc_relayer_api.Server.Cache.{lookup}
use gno_ibc_relayer_api.Server.Served.{lookup-assign}
use gno_ibc_relayer_api.Server.Shared.{put_phase-cases}

-- The looks of the move are not after the time.
abbrev pub InTime : {K V : Type 0} → ℕ → Move K V → Type 0
InTime e (calls c k now) = now ≤ e
InTime e (looks c now) = now ≤ e
InTime e _ = Unit

-- Of the loads that have begun, those for the key.
abbrev pub loads_for : {K : Type 0} ⦃key : Key K⦄ → K → List K → List K
loads_for ⦃key⦄ k loads = keep (λ j. key.same j k) loads

module _ {K V : Type 0} (k : K) (v : V) where
  -- No load for the key is under way, and a function for it ends with the value. A call that has not
  -- returned before returns with the value.
  abbrev pub Fine : Phase K V → Phase K V → Type 0
  Fine old (loading j) = j ≢ k
  Fine old (loaded j u) = j ≢ k
  Fine old (ends j r) = j ≡ k → r ≡ ok v
  Fine old (finished j r) = (old ≡ finished j r) ⊎ (j ≡ k → r ≡ ok v)
  Fine old _ = Unit

  put_phase-Fine :
      (c : ℕ) (p : Phase K V) (old phases : ℕ → Phase K V)
      → Fine (old c) p
      → ((d : ℕ) → Fine (old d) (phases d))
      → (d : ℕ) → Fine (old d) (put_phase c p phases d)
  put_phase-Fine c p old phases new fine d = elim (put_phase-cases c p phases d) [
    | inl (same, e) ↦ subst (Fine (old d)) (sym e) (subst (λ i. Fine (old i) p) (sym same) new)
    | inr (other, e) ↦ subst (Fine (old d)) (sym e) (fine d)
  ]

module _ {K V F : Type 0} ⦃key : Key K⦄ (sprint : K → Bytes) (group : Group F)
    (sprint_injective : (i j : K) → sprint i ≡ sprint j → i ≡ j) (k : K) (v : V) (e : ℕ)
    (old : ℕ → Phase K V) (ls : List K) where
  -- The entry of the key lives until `e`.
  pub record Live (s : State K V F) : Type 0 where
    pub entry : lookup k s.cache.entries ≡ some (record { value = v; expires_at = e })
    pub fine : (d : ℕ) → Fine k v (old d) (s.phases d)
    pub loads : loads_for k s.loads ≡ ls

  get-Live : (s : State K V F) (now : ℕ) → now ≤ e → Live s → get s.cache k now ≡ some v
  unfolding get
  get-Live s now early live = rw (get, live.entry, le→ltb e now early) refl

  got :
      (s : State K V F) (j : K) (u : V) (now : ℕ)
      → now ≤ e
      → Live s
      → get s.cache j now ≡ some u
      → j ≡ k
      → ok u ≡ ok v
  got s j u now early live there same = some_value (sym there ∙ rw same (get-Live s now early live))
    where
      some_value : some u ≡ some v → ok u ≡ ok v
      some_value h = ground arith

  missed-Live :
      (s : State K V F) (j : K) (now : ℕ) → now ≤ e → Live s → get s.cache j now ≡ none → j ≡ k → ⊥
  missed-Live s j now early live missing same =
      some_none
        (sym (get-Live s now early live) ∙ subst (λ i. get s.cache i now ≡ none) same missing)
    where
      some_none : some v ≡ none → ⊥
      some_none h = ground arith

  not_same : (j : K) → j ≢ k → key.same j k ≡ false
  not_same j other = elim (Bool-cases (key.same j k)) [
    | inl h ↦ absurd (other (key.same_eq j k h))
    | inr h ↦ h
  ]

  landed-Fine :
      (i : K) (r : Result V) (was p : Phase K V)
      → (i ≡ k → r ≡ ok v)
      → Fine k v was p
      → Fine k v was (landed sprint group (sprint i) r p)
  landed-Fine i r was (waits j) right fine = elim (Bool-cases (str_eq (sprint j) (sprint i))) [
    | inl h ↦ rw h (
        inr (λ same. right (sym (sprint_injective j i (str_eq→eq (sprint j) (sprint i) h)) ∙ same)))
    | inr h ↦ rw h tt
  ]
  landed-Fine i r was idle right fine = tt
  landed-Fine i r was (missed j) right fine = tt
  landed-Fine i r was (entered j) right fine = tt
  landed-Fine i r was (loading j) right fine = fine
  landed-Fine i r was (loaded j u) right fine = fine
  landed-Fine i r was (ends j q) right fine = fine
  landed-Fine i r was (finished j q) right fine = fine

  Step-Live :
      (s s' : State K V F) (m : Move K V) → Step sprint group s m s' → InTime e m → Live s → Live s'
  unfolding put keep
  Step-Live s _ _ (stays m) early live = live
  Step-Live s _ _ (called c j now at) early live = record {
    entry = live.entry;
    fine = put_phase-Fine k v c _ old s.phases (by_look (get s.cache j now) refl) live.fine;
    loads = live.loads;
  }
    where
      by_look : (o : Option V) → get s.cache j now ≡ o → Fine k v (old c) (first_look j o)
      by_look (some u) there = inr (got s j u now early live there)
      by_look none missing = tt
  Step-Live s _ _ (waited c j at busy) early live = record {
    entry = live.entry;
    fine = put_phase-Fine k v c (waits j) old s.phases tt live.fine;
    loads = live.loads;
  }
  Step-Live s _ _ (began c j at free) early live = record {
    entry = live.entry;
    fine = put_phase-Fine k v c (entered j) old s.phases tt live.fine;
    loads = live.loads;
  }
  Step-Live s _ _ (looked c j now at) early live = by_look (get s.cache j now) refl
    where
      by_look : (o : Option V) → get s.cache j now ≡ o → Live (second_look sprint group c j o s)
      by_look (some u) there = record {
        entry = live.entry;
        fine =
            put_phase-Fine k v c (ends j (ok u)) old s.phases (got s j u now early live there)
              live.fine;
        loads = live.loads;
      }
      by_look none missing =
          let other : j ≢ k = λ same. missed-Live s j now early live missing same in
          record {
            entry = live.entry;
            fine = put_phase-Fine k v c (loading j) old s.phases other live.fine;
            loads = rw (keep, not_same j other) live.loads;
          }
  Step-Live s _ _ (was_answered c j r at) early live =
      let other : j ≢ k = subst (Fine k v (old c)) at (live.fine c) in
      record {
        entry = live.entry;
        fine = put_phase-Fine k v c (answered j r) old s.phases (by_result other r) live.fine;
        loads = live.loads;
      }
    where
      by_result : j ≢ k → (r : Result V) → Fine k v (old c) (answered j r)
      by_result other (ok u) = other
      by_result other (err x) = λ same. absurd (other same)
      by_result other crash = λ same. absurd (other same)
  Step-Live s _ _ (stored c j u now at) early live =
      let other : j ≢ k = subst (Fine k v (old c)) at (live.fine c) in
      record {
        entry = unfold set in rw (lookup-assign k j _ s.cache.entries, not_same j other) live.entry;
        fine =
            put_phase-Fine k v c (ends j (ok u)) old s.phases (λ same. absurd (other same))
              live.fine;
        loads = live.loads;
      }
  Step-Live s _ _ (returned c j r at) early live =
      let right : (j ≡ k → r ≡ ok v) = subst (Fine k v (old c)) at (live.fine c) in
      record {
        entry = live.entry;
        fine =
            put_phase-Fine k v c (finished j r) old
              (λ d. landed sprint group (sprint j) r (s.phases d)) (inr right)
              (λ d. landed-Fine j r (old d) (s.phases d) right (live.fine d));
        loads = live.loads;
      }

  pub moves-Live :
      (ms : List (Move K V)) (s : State K V F)
      → All (InTime e) ms
      → Live s
      → Live (moves sprint group ms s)
  unfolding moves
  moves-Live [] s early live = live
  moves-Live (m ∷ ms) s early live =
      moves-Live ms (move sprint group m s) early.1
        (Step-Live s (move sprint group m s) m (move-Step sprint group m s) early.0 live)
