-- ===== src/Server/Steps.antt =====
-- internal/server/ttlcache.go: what a move of a call may do.
use gno_ibc_relayer_api.Prelude.{ℕ, ◌≡◌, refl, true, false, inl, inr, Bool-cases}
use gno_ibc_relayer_api.Prelude.Strings.{Bytes}
use gno_ibc_relayer_api.Db.World.{Result, ok}
use gno_ibc_relayer_api.Server.Cache.{Key, get, set}
use gno_ibc_relayer_api.Server.Flights.{
  Group, Phase, idle, missed, waits, entered, loading, loaded, ends, finished, Move, calls, does,
  looks, answers, stores, returns, State, put, first_look, answered, call_at, do_at, second_look,
  look_at, answer_at, store_at, landed, return_at, move,
}

module _ {K V F : Type 0} ⦃key : Key K⦄ (sprint : K → Bytes) (group : Group F) where
  pub data Step (s : State K V F) : Move K V → State K V F → Type 0 where
    stays : (m : Move K V) → Step s m s
    called :
        (c : ℕ) (k : K) (now : ℕ)
        → s.phases c ≡ idle
        → Step s (calls c k now) (put c (first_look k (get s.cache k now)) s)
    waited :
        (c : ℕ) (k : K)
        → s.phases c ≡ missed k
        → group.flying s.flights (sprint k) ≡ true
        → Step s (does c) (put c (waits k) s)
    began :
        (c : ℕ) (k : K)
        → s.phases c ≡ missed k
        → group.flying s.flights (sprint k) ≡ false
        → Step s
            (does c)
            (put c (entered k) (record s { flights = group.begin (sprint k) s.flights }))
    looked :
        (c : ℕ) (k : K) (now : ℕ)
        → s.phases c ≡ entered k
        → Step s (looks c now) (second_look sprint group c k (get s.cache k now) s)
    was_answered :
        (c : ℕ) (k : K) (r : Result V)
        → s.phases c ≡ loading k
        → Step s (answers c r) (put c (answered k r) s)
    stored :
        (c : ℕ) (k : K) (v : V) (now : ℕ)
        → s.phases c ≡ loaded k v
        → Step s (stores c now) (put c (ends k (ok v)) (record s { cache = set s.cache k v now }))
    returned :
        (c : ℕ) (k : K) (r : Result V)
        → s.phases c ≡ ends k r
        → Step s (returns c) (
            put c (finished k r) (record s {
              flights = group.finish (sprint k) s.flights;
              phases = λ d. landed sprint group (sprint k) r (s.phases d);
            }))

  call_at-Step :
      (p : Phase K V) (c : ℕ) (k : K) (now : ℕ) (s : State K V F)
      → s.phases c ≡ p
      → Step s (calls c k now) (call_at sprint group p c k now s)
  call_at-Step idle c k now s at = called c k now at
  call_at-Step (missed j) c k now s at = stays _
  call_at-Step (waits j) c k now s at = stays _
  call_at-Step (entered j) c k now s at = stays _
  call_at-Step (loading j) c k now s at = stays _
  call_at-Step (loaded j v) c k now s at = stays _
  call_at-Step (ends j r) c k now s at = stays _
  call_at-Step (finished j r) c k now s at = stays _

  do_at-Step :
      (p : Phase K V) (c : ℕ) (s : State K V F)
      → s.phases c ≡ p
      → Step s (does c) (do_at sprint group p c s)
  do_at-Step (missed k) c s at = elim (Bool-cases (group.flying s.flights (sprint k))) [
    | inl e ↦ rw e (waited c k at e)
    | inr e ↦ rw e (began c k at e)
  ]
  do_at-Step idle c s at = stays _
  do_at-Step (waits j) c s at = stays _
  do_at-Step (entered j) c s at = stays _
  do_at-Step (loading j) c s at = stays _
  do_at-Step (loaded j v) c s at = stays _
  do_at-Step (ends j r) c s at = stays _
  do_at-Step (finished j r) c s at = stays _

  look_at-Step :
      (p : Phase K V) (c now : ℕ) (s : State K V F)
      → s.phases c ≡ p
      → Step s (looks c now) (look_at sprint group p c now s)
  look_at-Step (entered k) c now s at = looked c k now at
  look_at-Step idle c now s at = stays _
  look_at-Step (missed j) c now s at = stays _
  look_at-Step (waits j) c now s at = stays _
  look_at-Step (loading j) c now s at = stays _
  look_at-Step (loaded j v) c now s at = stays _
  look_at-Step (ends j r) c now s at = stays _
  look_at-Step (finished j r) c now s at = stays _

  answer_at-Step :
      (p : Phase K V) (c : ℕ) (r : Result V) (s : State K V F)
      → s.phases c ≡ p
      → Step s (answers c r) (answer_at sprint group p c r s)
  answer_at-Step (loading k) c r s at = was_answered c k r at
  answer_at-Step idle c r s at = stays _
  answer_at-Step (missed j) c r s at = stays _
  answer_at-Step (waits j) c r s at = stays _
  answer_at-Step (entered j) c r s at = stays _
  answer_at-Step (loaded j v) c r s at = stays _
  answer_at-Step (ends j q) c r s at = stays _
  answer_at-Step (finished j q) c r s at = stays _

  store_at-Step :
      (p : Phase K V) (c now : ℕ) (s : State K V F)
      → s.phases c ≡ p
      → Step s (stores c now) (store_at sprint group p c now s)
  store_at-Step (loaded k v) c now s at = stored c k v now at
  store_at-Step idle c now s at = stays _
  store_at-Step (missed j) c now s at = stays _
  store_at-Step (waits j) c now s at = stays _
  store_at-Step (entered j) c now s at = stays _
  store_at-Step (loading j) c now s at = stays _
  store_at-Step (ends j r) c now s at = stays _
  store_at-Step (finished j r) c now s at = stays _

  return_at-Step :
      (p : Phase K V) (c : ℕ) (s : State K V F)
      → s.phases c ≡ p
      → Step s (returns c) (return_at sprint group p c s)
  return_at-Step (ends k r) c s at = returned c k r at
  return_at-Step idle c s at = stays _
  return_at-Step (missed j) c s at = stays _
  return_at-Step (waits j) c s at = stays _
  return_at-Step (entered j) c s at = stays _
  return_at-Step (loading j) c s at = stays _
  return_at-Step (loaded j v) c s at = stays _
  return_at-Step (finished j r) c s at = stays _

  pub move-Step : (m : Move K V) (s : State K V F) → Step s m (move sprint group m s)
  unfolding move
  move-Step (calls c k now) s = call_at-Step (s.phases c) c k now s refl
  move-Step (does c) s = do_at-Step (s.phases c) c s refl
  move-Step (looks c now) s = look_at-Step (s.phases c) c now s refl
  move-Step (answers c r) s = answer_at-Step (s.phases c) c r s refl
  move-Step (stores c now) s = store_at-Step (s.phases c) c now s refl
  move-Step (returns c) s = return_at-Step (s.phases c) c s refl
