-- ===== src/Server/Once.antt =====
-- internal/server/ttlcache.go: what one call stores, the others have for the time to live.
use gno_ibc_relayer_api.Prelude.{ℕ, ◌≡◌, refl, sym, ap, subst, List, ◌⊎◌, inl, inr, ◌≢◌}
use gno_ibc_relayer_api.Prelude.Strings.{Bytes}
use gno_ibc_relayer_api.Db.World.{Result, ok}
use gno_ibc_relayer_api.Server.Cache.{Cache, Key, set}
use gno_ibc_relayer_api.Server.Flights.{
  Group, Phase, idle, missed, waits, entered, loading, loaded, ends, finished, Move, stores, State,
  put, move, moves, no_calls,
}
use gno_ibc_relayer_api.Prelude.{◌+◌, All}
use gno_ibc_relayer_api.Server.Served.{lookup-assign}
use gno_ibc_relayer_api.Server.Shared.{put_phase-cases, Leads, Inv, moves-Inv, no_calls-Inv}
use gno_ibc_relayer_api.Server.Live.{InTime, loads_for, Fine, Live, moves-Live}

module _ {K V F : Type 0} ⦃key : Key K⦄ (sprint : K → Bytes) (group : Group F)
    (sprint_injective : (i j : K) → sprint i ≡ sprint j → i ≡ j) where
  -- The call has just stored what it loaded.
  store-Live :
      (s : State K V F) (c : ℕ) (k : K) (v : V) (now : ℕ)
      → Inv sprint group s.flights s.phases
      → s.phases c ≡ loaded k v
      → Live sprint group sprint_injective k v
          (now + s.cache.ttl)
          (move sprint group (stores c now) s).phases
          (loads_for k (move sprint group (stores c now) s).loads)
          (move sprint group (stores c now) s)
  unfolding move put set
  store-Live s c k v now inv at = rw at (record {
    entry = rw (lookup-assign k k _ s.cache.entries, key.same_refl k) refl;
    fine = λ d. elim (put_phase-cases c (ends k (ok v)) s.phases d) [
      | inl (same, e) ↦ subst (λ p. Fine k v p p) (sym e) (λ h. refl)
      | inr (other, e) ↦ subst (λ p. Fine k v p p) (sym e) (alone d other (s.phases d) refl)
    ];
    loads = refl;
  })
    where
      no_other : (d : ℕ) → d ≢ c → Leads sprint group (sprint k) (s.phases d) → ⊥
      no_other d other m =
          other (inv.alone d c (sprint k) m (subst (Leads sprint group (sprint k)) (sym at) refl))

      alone : (d : ℕ) → d ≢ c → (p : Phase K V) → s.phases d ≡ p → Fine k v p p
      alone d other idle is = tt
      alone d other (missed j) is = tt
      alone d other (waits j) is = tt
      alone d other (entered j) is = tt
      alone d other (loading j) is =
          λ same. no_other d other (subst (Leads sprint group (sprint k)) (sym is) (ap sprint same))
      alone d other (loaded j u) is =
          λ same. no_other d other (subst (Leads sprint group (sprint k)) (sym is) (ap sprint same))
      alone d other (ends j r) is = λ same.
          absurd
            (no_other d other (subst (Leads sprint group (sprint k)) (sym is) (ap sprint same)))
      alone d other (finished j r) is = inl refl

  -- From no calls on, however calls interleave, a call stores a value that it loaded for a key. In all
  -- moves after that whose looks are not after the store by more than the time to live, no load for the
  -- key begins, and every call for the key that had not returned, and returns, has the value. What
  -- the text of a key is must tell keys apart.
  pub store-shared :
      (cache : Cache K V) (before after : List (Move K V)) (c : ℕ) (k : K) (v : V) (now : ℕ)
      → (moves sprint group before (no_calls sprint group cache)).phases c ≡ loaded k v
      → All
          (InTime (now + (moves sprint group before (no_calls sprint group cache)).cache.ttl))
          after
      → let stored_at =
          move sprint group
            (stores c now)
            (moves sprint group before (no_calls sprint group cache)) in
        (loads_for k (moves sprint group after stored_at).loads ≡ loads_for k stored_at.loads)
        × ((d : ℕ) (r : Result V)
            → (moves sprint group after stored_at).phases d ≡ finished k r
            → (stored_at.phases d ≡ finished k r) ⊎ (r ≡ ok v))
  store-shared cache before after c k v now at early =
      let s = moves sprint group before (no_calls sprint group cache) in
      let live =
        moves-Live sprint group sprint_injective k v (now + s.cache.ttl) _ _ after
          (move sprint group (stores c now) s) early
          (store-Live s c k v now
            (moves-Inv sprint group before (no_calls sprint group cache)
              (no_calls-Inv sprint group))
            at) in
      (live.loads, λ d r is. returned_right _ r (subst (Fine k v _) is (live.fine d)))
    where
      returned_right :
          (was : Phase K V) (r : Result V)
          → (was ≡ finished k r) ⊎ (k ≡ k → r ≡ ok v)
          → (was ≡ finished k r) ⊎ (r ≡ ok v)
      returned_right was r (inl e) = inl e
      returned_right was r (inr f) = inr (f refl)
