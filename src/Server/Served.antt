-- ===== src/Server/Served.antt =====
-- internal/server/ttlcache.go: what the cache serves.
use gno_ibc_relayer_api.Prelude.{
  ℕ, ◌+◌, ◌≤◌, ◌≡◌, refl, none, some, List, [], ◌∷◌, arith, ltb, if◌then◌else◌, le→ltb,
}
use gno_ibc_relayer_api.Db.World.{World, DbError, ok, err, M}
use gno_ibc_relayer_api.Server.Cache.{Cache, Entry, Key, lookup, assign, get, set, get_or_load}

module _ {K V : Type 0} ⦃key : Key K⦄ where
  pub lookup-assign :
      (j k : K) (e : Entry V) (es : List (K × Entry V))
      → lookup j (assign k e es) ≡ (if key.same k j then some e else lookup j es)
  unfolding lookup assign
  lookup-assign j k e [] = refl
  lookup-assign j k e ((i, f) ∷ es) = ground (
    arith,
    key.same_eq i k,
    key.same_eq i j,
    key.same_eq k j,
    key.same_refl k,
    lookup-assign j k e es,
  )

  -- A value that is set is served until its time to live has passed and not later, and other keys keep
  -- theirs.
  pub get-set :
      (c : Cache K V) (j k : K) (v : V) (now later : ℕ)
      → get (set c k v now) j later ≡ (
          if key.same k j
          then (if ltb (now + c.ttl) later then none else some v)
          else get c j later)
  unfolding get set
  get-set c j k v now later = rw (lookup-assign j k _ c.entries) (ground arith)

  -- After a load that succeeded on a miss, every call up to the end of the time to live, which runs
  -- from the store, has the loaded value, with no further load, whatever it would give: the
  -- database is left as it was.
  pub get_or_load-cached :
      (c : Cache K V) (k : K) (t1 t2 t3 t4 t5 t6 : ℕ) (load again : M V) (w w' u : World) (v : V)
      → get c k t1 ≡ none
      → get c k t2 ≡ none
      → load w ≡ (ok v, w')
      → t4 ≤ t3 + c.ttl
      → get_or_load (get_or_load c k t1 t2 t3 load w).1 k t4 t5 t6 again u
        ≡ (ok v, (get_or_load c k t1 t2 t3 load w).1, u)
  unfolding get_or_load
  get_or_load-cached c k t1 t2 t3 t4 t5 t6 load again w w' u v m1 m2 loaded in_time =
      rw
        (
          get_or_load,
          m1,
          m2,
          loaded,
          get-set c k k v t3 t4,
          key.same_refl k,
          le→ltb (t3 + c.ttl) t4 in_time,
        )
        refl

  -- The error of a load is not cached: after a load that failed on a miss, the next call that finds no
  -- live entry at either look loads again, and its value is stored in the cache of before.
  pub get_or_load-retried :
      (c : Cache K V) (k : K) (t1 t2 t3 t4 t5 t6 : ℕ) (load again : M V) (w w' w'' : World)
      (e : DbError) (v : V)
      → get c k t1 ≡ none
      → get c k t2 ≡ none
      → load w ≡ (err e, w')
      → get c k t4 ≡ none
      → get c k t5 ≡ none
      → again w' ≡ (ok v, w'')
      → get_or_load (get_or_load c k t1 t2 t3 load w).1 k t4 t5 t6 again w'
        ≡ (ok v, set c k v t6, w'')
  unfolding get_or_load
  get_or_load-retried c k t1 t2 t3 t4 t5 t6 load again w w' w'' e v m1 m2 failed m4 m5 loaded =
      rw (get_or_load, m1, m2, failed, m4, m5, loaded) refl
