-- ===== src/Server/Calls.antt =====
-- The theorems about calls of internal/server/ttlcache.go at the same time, at concrete calls.
use gno_ibc_relayer_api.Prelude.{
  ℕ, ◌≡◌, ◌⊎◌, refl, Bool, false, not, ◌&&◌, ◌||◌, List, [], ◌∷◌, arith,
}
use gno_ibc_relayer_api.Prelude.Strings.{Bytes, str_eq}
use gno_ibc_relayer_api.Db.World.{Result, ok}
use gno_ibc_relayer_api.Server.Cache.{get, set, lookup, assign}
use gno_ibc_relayer_api.Server.Handlers.{nat_key}
use gno_ibc_relayer_api.Server.Flights.{
  Group, finished, loaded, Move, calls, does, looks, answers, stores, returns, State, put,
  put_phase, move, moves, no_calls,
}
use gno_ibc_relayer_api.Server.Live.{loads_for}
use gno_ibc_relayer_api.Server.Once.{store-shared}
use gno_ibc_relayer_api.Server.Tests.{five}

-- The texts that fly, as a function.
abbrev texts : Group (Bytes → Bool)
texts = record {
  no_flights = λ _. false;
  flying = λ f t. f t;
  begin = λ s f t. str_eq s t || f t;
  finish = λ s f t. not (str_eq s t) && f t;
  flying_first = λ t. refl;
  flying_begin = λ s t f. refl;
  flying_finish = λ s t f. refl;
}

abbrev text_of : ℕ → Bytes
text_of n = n ∷ []

text_of_injective : (i j : ℕ) → text_of i ≡ text_of j → i ≡ j
text_of_injective i j e = cc

-- Two calls at the same time; the first loads.
abbrev before : List (Move ℕ ℕ)
before =
    calls 0 7 10 ∷ calls 1 7 10 ∷ does 0 ∷ does 1 ∷ looks 0 11 ∷ looks 1 11 ∷ answers 0 (ok 42) ∷ []

-- It returns, and a third call comes.
abbrev after : List (Move ℕ ℕ)
after = returns 0 ∷ calls 2 7 17 ∷ []

abbrev reached : State ℕ ℕ (Bytes → Bool)
reached = moves text_of texts before (no_calls text_of texts five)

abbrev stored_at : State ℕ ℕ (Bytes → Bool)
stored_at = move text_of texts (stores 0 12) reached

loaded_42 : reached.phases 0 ≡ loaded 7 42
unfolding moves move put put_phase get lookup str_eq
loaded_42 = refl

time_to_live : reached.cache.ttl ≡ 5
unfolding moves move put put_phase get lookup str_eq
time_to_live = refl

store-shared_example :
    (loads_for 7 (moves text_of texts after stored_at).loads ≡ loads_for 7 stored_at.loads)
    × ((d : ℕ) (r : Result ℕ)
        → (moves text_of texts after stored_at).phases d ≡ finished 7 r
        → (stored_at.phases d ≡ finished 7 r) ⊎ (r ≡ ok 42))
store-shared_example =
    store-shared text_of texts text_of_injective five before after 0 7 42 12 loaded_42
      (tt, (rw time_to_live (omega arith), tt))

-- The call that waited has the value.
waited_42 : (moves text_of texts after stored_at).phases 1 ≡ finished 7 (ok 42)
unfolding moves move put put_phase get set lookup assign str_eq
waited_42 = refl
