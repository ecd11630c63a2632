-- ===== src/Server/Cache.antt =====
-- internal/server/ttlcache.go: the cache, for calls one after the other. Each reading of the clock is
-- an argument. With one call at a time singleflight only runs its function.
use gno_ibc_relayer_api.Prelude.{
  ℕ, ◌+◌, ◌≡◌, Bool, true, Option, none, some, List, [], ◌∷◌, ltb, if◌then◌else◌,
}
use gno_ibc_relayer_api.Db.World.{World, Result, ok, err, crash, M}

pub record Entry (V : Type 0) : Type 0 where
  pub value : V
  pub expires_at : ℕ

-- `entries`, as an association list.
pub record Cache (K V : Type 0) : Type 0 where
  pub ttl : ℕ
  pub entries : List (K × Entry V)

-- Equality of keys, Go's `comparable`.
pub record Key (K : Type 0) : Type 0 where
  pub same : K → K → Bool
  pub same_refl : (k : K) → same k k ≡ true
  pub same_eq : (j k : K) → same j k ≡ true → j ≡ k

-- An entry is served until the clock is past its time.
abbrev pub fresh : {V : Type 0} → ℕ → Option (Entry V) → Option V
fresh now none = none
fresh now (some e) = if ltb e.expires_at now then none else some e.value

module _ {K V : Type 0} where
  unfoldable pub new_cache : ℕ → Cache K V
  new_cache ttl = record { ttl = ttl; entries = [] }

module _ {K V : Type 0} ⦃key : Key K⦄ where
  unfoldable pub lookup : K → List (K × Entry V) → Option (Entry V)
  lookup k [] = none
  lookup k ((j, e) ∷ es) = if key.same j k then some e else lookup k es

  unfoldable pub assign : K → Entry V → List (K × Entry V) → List (K × Entry V)
  assign k e [] = (k, e) ∷ []
  assign k e ((j, f) ∷ es) = if key.same j k then (k, e) ∷ es else (j, f) ∷ assign k e es

  unfoldable pub get : Cache K V → K → ℕ → Option V
  unfolding lookup
  get c k now = fresh now (lookup k c.entries)

  unfoldable pub set : Cache K V → K → V → ℕ → Cache K V
  unfolding assign
  set c k v now = record c {
    entries = assign k (record { value = v; expires_at = now + c.ttl }) c.entries;
  }

  -- After the load: a value is stored, an error or a panic is passed on.
  abbrev pub store : Cache K V → K → ℕ → Result V × World → Result V × Cache K V × World
  store c k now (ok v, w) = (ok v, set c k v now, w)
  store c k now (err e, w) = (err e, c, w)
  store c k now (crash, w) = (crash, c, w)

  abbrev pub load_unless : Cache K V → K → ℕ → Option V → M V → World → Result V × Cache K V × World
  load_unless c k t3 (some v) load w = (ok v, c, w)
  load_unless c k t3 none load w = store c k t3 (load w)

  abbrev pub hit_or :
      Cache K V
      → Option V
      → (World → Result V × Cache K V × World)
      → World
      → Result V × Cache K V × World
  hit_or c (some v) miss w = (ok v, c, w)
  hit_or c none miss w = miss w

  -- `getOrLoad`, with the clock at the two looks and at the store.
  unfoldable pub get_or_load :
      Cache K V → K → ℕ → ℕ → ℕ → M V → World → Result V × Cache K V × World
  get_or_load c k t1 t2 t3 load w = hit_or c (get c k t1) (load_unless c k t3 (get c k t2) load) w
