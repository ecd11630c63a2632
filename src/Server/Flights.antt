-- ===== src/Server/Flights.antt =====
-- internal/server/ttlcache.go: calls of `getOrLoad` at the same time. Each move is what one call does
-- between two locks. golang.org/x/sync/singleflight and fmt.Sprint are parameters.
use gno_ibc_relayer_api.Prelude.{
  ℕ, ◌≡◌, Bool, false, not, ◌&&◌, ◌||◌, Option, none, some, List, [], ◌∷◌, ◌==◌, if◌then◌else◌,
}
use gno_ibc_relayer_api.Prelude.Strings.{Bytes, str_eq}
use gno_ibc_relayer_api.Db.World.{Result, ok, err, crash}
use gno_ibc_relayer_api.Server.Cache.{Cache, Key, get, set}

-- `singleflight.Group`: of the calls of `Do` with one key, the first runs its function, and the others wait
-- for its result. `flying` says whether one runs.
pub record Group (F : Type 0) : Type 0 where
  pub no_flights : F
  pub flying : F → Bytes → Bool
  pub begin : Bytes → F → F
  pub finish : Bytes → F → F
  pub flying_first : (t : Bytes) → flying no_flights t ≡ false
  pub flying_begin : (s t : Bytes) (f : F) → flying (begin s f) t ≡ (str_eq s t || flying f t)
  pub flying_finish :
      (s t : Bytes) (f : F) → flying (finish s f) t ≡ (not (str_eq s t) && flying f t)

-- Where a call is: it has missed at the first look; it waits for another call's function; it runs the
-- function, before the second look, in the load, and after the load; its function has returned; it has
-- returned.
pub data Phase (K V : Type 0) : Type 0 where
  idle : Phase K V
  missed waits entered loading : K → Phase K V
  loaded : K → V → Phase K V
  ends finished : K → Result V → Phase K V

-- A move of one call, with the readings of the clock, and the answer of its load.
pub data Move (K V : Type 0) : Type 0 where
  calls : ℕ → K → ℕ → Move K V
  does : ℕ → Move K V
  looks : ℕ → ℕ → Move K V
  answers : ℕ → Result V → Move K V
  stores : ℕ → ℕ → Move K V
  returns : ℕ → Move K V

-- The cache, its flights, the calls by their numbers, and the keys of the loads that have begun.
pub record State (K V F : Type 0) : Type 0 where
  pub cache : Cache K V
  pub flights : F
  pub phases : ℕ → Phase K V
  pub loads : List K

module _ {K V : Type 0} where
  unfoldable pub put_phase : ℕ → Phase K V → (ℕ → Phase K V) → ℕ → Phase K V
  put_phase c p phases d = if d == c then p else phases d

  unfoldable pub put : {F : Type 0} → ℕ → Phase K V → State K V F → State K V F
  unfolding put_phase
  put c p s = record s { phases = put_phase c p s.phases }

  -- The first look.
  abbrev pub first_look : K → Option V → Phase K V
  first_look k (some v) = finished k (ok v)
  first_look k none = missed k

  abbrev pub answered : K → Result V → Phase K V
  answered k (ok v) = loaded k v
  answered k (err e) = ends k (err e)
  answered k crash = ends k crash

module _ {K V F : Type 0} ⦃key : Key K⦄ (sprint : K → Bytes) (group : Group F) where
  abbrev pub call_at : Phase K V → ℕ → K → ℕ → State K V F → State K V F
  call_at idle c k now s = put c (first_look k (get s.cache k now)) s
  call_at _ c k now s = s

  abbrev pub do_at : Phase K V → ℕ → State K V F → State K V F
  do_at (missed k) c s =
      if group.flying s.flights (sprint k)
      then put c (waits k) s
      else put c (entered k) (record s { flights = group.begin (sprint k) s.flights })
  do_at _ c s = s

  -- The second look, in the function; a miss begins a load.
  abbrev pub second_look : ℕ → K → Option V → State K V F → State K V F
  second_look c k (some v) s = put c (ends k (ok v)) s
  second_look c k none s = put c (loading k) (record s { loads = k ∷ s.loads })

  abbrev pub look_at : Phase K V → ℕ → ℕ → State K V F → State K V F
  look_at (entered k) c now s = second_look c k (get s.cache k now) s
  look_at _ c now s = s

  abbrev pub answer_at : Phase K V → ℕ → Result V → State K V F → State K V F
  answer_at (loading k) c r s = put c (answered k r) s
  answer_at _ c r s = s

  abbrev pub store_at : Phase K V → ℕ → ℕ → State K V F → State K V F
  store_at (loaded k v) c now s = put c (ends k (ok v)) (record s { cache = set s.cache k v now })
  store_at _ c now s = s

  -- The calls that wait for a function have its result.
  abbrev pub landed : Bytes → Result V → Phase K V → Phase K V
  landed t r (waits k) = if str_eq (sprint k) t then finished k r else waits k
  landed t r p = p

  abbrev pub return_at : Phase K V → ℕ → State K V F → State K V F
  return_at (ends k r) c s = put c (finished k r) (record s {
    flights = group.finish (sprint k) s.flights;
    phases = λ d. landed (sprint k) r (s.phases d);
  })
  return_at _ c s = s

  -- A move that the call is not ready for changes nothing.
  unfoldable pub move : Move K V → State K V F → State K V F
  unfolding put
  move (calls c k now) s = call_at (s.phases c) c k now s
  move (does c) s = do_at (s.phases c) c s
  move (looks c now) s = look_at (s.phases c) c now s
  move (answers c r) s = answer_at (s.phases c) c r s
  move (stores c now) s = store_at (s.phases c) c now s
  move (returns c) s = return_at (s.phases c) c s

  unfoldable pub moves : List (Move K V) → State K V F → State K V F
  unfolding move
  moves [] s = s
  moves (m ∷ ms) s = moves ms (move m s)

  -- No calls yet.
  abbrev pub no_calls : Cache K V → State K V F
  no_calls c = record { cache = c; flights = group.no_flights; phases = λ _. idle; loads = [] }
