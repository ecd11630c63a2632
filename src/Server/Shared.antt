-- ===== src/Server/Shared.antt =====
-- internal/server/ttlcache.go: of the calls with one key at most one runs the function.
use gno_ibc_relayer_api.Prelude.{
  ℕ, ◌≡◌, refl, sym, subst, ◌∙◌, Bool, true, false, ◌||◌, Option, none, some, List, [], ◌∷◌, ◌==◌,
  ==_iff, if◌then◌else◌, ◌⊎◌, inl, inr, Bool-cases, ◌≢◌, arith,
}
use gno_ibc_relayer_api.Prelude.Membership.{Bool-apart}
use gno_ibc_relayer_api.Prelude.Strings.{Bytes, str_eq, str_eq_refl, str_eq→eq}
use gno_ibc_relayer_api.Db.World.{Result, ok, err, crash}
use gno_ibc_relayer_api.Server.Cache.{Key, get}
use gno_ibc_relayer_api.Server.Steps.{
  Step, stays, called, waited, began, looked, was_answered, stored, returned, move-Step,
}
use gno_ibc_relayer_api.Server.Flights.{
  Group, Phase, idle, missed, waits, entered, loading, loaded, ends, finished, Move, State,
  put_phase, put, first_look, answered, second_look, landed, move, moves,
}

module _ {K V : Type 0} where
  pub put_phase-cases :
      (c : ℕ) (p : Phase K V) (f : ℕ → Phase K V) (d : ℕ)
      → ((d ≡ c) × (put_phase c p f d ≡ p)) ⊎ ((d ≢ c) × (put_phase c p f d ≡ f d))
  unfolding put_phase
  put_phase-cases c p f d = elim (Bool-cases (d == c)) [
    | inl e ↦ inl ((==_iff d c).0 e, rw (put_phase, e) refl)
    | inr e ↦ inr (λ h. Bool-apart (d == c) ((==_iff d c).1 h) e, rw (put_phase, e) refl)
  ]

module _ {K V F : Type 0} ⦃key : Key K⦄ (sprint : K → Bytes) (group : Group F) where
  -- The call runs the function of the text.
  abbrev pub Leads : Bytes → Phase K V → Type 0
  Leads t (entered k) = sprint k ≡ t
  Leads t (loading k) = sprint k ≡ t
  Leads t (loaded k v) = sprint k ≡ t
  Leads t (ends k r) = sprint k ≡ t
  Leads t _ = ⊥

  -- Who runs a function has its flight, and has it alone.
  pub record Inv (f : F) (phases : ℕ → Phase K V) : Type 0 where
    pub flies : (d : ℕ) (t : Bytes) → Leads t (phases d) → group.flying f t ≡ true
    pub alone : (c d : ℕ) (t : Bytes) → Leads t (phases c) → Leads t (phases d) → c ≡ d

  put_phase-Leads :
      (c : ℕ) (p : Phase K V) (phases : ℕ → Phase K V)
      → ((t : Bytes) → Leads t p → Leads t (phases c))
      → (d : ℕ) (t : Bytes) → Leads t (put_phase c p phases d)
      → Leads t (phases d)
  put_phase-Leads c p phases h d t leads = elim (put_phase-cases c p phases d) [
    | inl (same, e) ↦ subst (λ i. Leads t (phases i)) (sym same) (h t (subst (Leads t) e leads))
    | inr (other, e) ↦ subst (Leads t) e leads
  ]

  put_phase-Inv :
      (c : ℕ) (p : Phase K V) (f : F) (phases : ℕ → Phase K V)
      → ((t : Bytes) → Leads t p → Leads t (phases c))
      → Inv f phases
      → Inv f (put_phase c p phases)
  put_phase-Inv c p f phases h inv =
      let before = put_phase-Leads c p phases h in
      record {
        flies = λ d t l. inv.flies d t (before d t l);
        alone = λ b d t l m. inv.alone b d t (before b t l) (before d t m);
      }

  begin-Inv :
      (c : ℕ) (k : K) (f : F) (phases : ℕ → Phase K V)
      → group.flying f (sprint k) ≡ false
      → Inv f phases
      → Inv (group.begin (sprint k) f) (put_phase c (entered k) phases)
  begin-Inv c k f phases free inv = record {
    flies = λ d t l. elim (leader d t l) [
      | inl (same, e) ↦ rw (group.flying_begin (sprint k) t f, e, str_eq_refl t) refl
      | inr m ↦
          rw (group.flying_begin (sprint k) t f, inv.flies d t m) (or_true (str_eq (sprint k) t))
    ];
    alone = λ b d t l m. by_leaders b d t (leader b t l) (leader d t m);
  }
    where
      or_true : (b : Bool) → (b || true) ≡ true
      or_true b = ground arith

      leader :
          (d : ℕ) (t : Bytes)
          → Leads t (put_phase c (entered k) phases d)
          → ((d ≡ c) × (sprint k ≡ t)) ⊎ Leads t (phases d)
      leader d t l = elim (put_phase-cases c (entered k) phases d) [
        | inl (same, e) ↦ inl (same, subst (Leads t) e l)
        | inr (other, e) ↦ inr (subst (Leads t) e l)
      ]

      no_other : (d : ℕ) (t : Bytes) → sprint k ≡ t → Leads t (phases d) → ⊥
      no_other d t e m =
          Bool-apart (group.flying f t) (inv.flies d t m)
            (subst (λ s. group.flying f s ≡ false) e free)

      by_leaders :
          (b d : ℕ) (t : Bytes)
          → ((b ≡ c) × (sprint k ≡ t)) ⊎ Leads t (phases b)
          → ((d ≡ c) × (sprint k ≡ t)) ⊎ Leads t (phases d)
          → b ≡ d
      by_leaders b d t (inl (e, s)) (inl (e', s')) = e ∙ sym e'
      by_leaders b d t (inl (e, s)) (inr m) = absurd (no_other d t s m)
      by_leaders b d t (inr l) (inl (e, s)) = absurd (no_other b t s l)
      by_leaders b d t (inr l) (inr m) = inv.alone b d t l m

  landed-Leads :
      (s t : Bytes) (r : Result V) (p : Phase K V) → Leads t (landed sprint group s r p) → Leads t p
  landed-Leads s t r (waits k) l = elim (Bool-cases (str_eq (sprint k) s)) [
    | inl e ↦ absurd (subst (λ b. Leads t (if b then finished k r else waits k)) e l)
    | inr e ↦ absurd (subst (λ b. Leads t (if b then finished k r else waits k)) e l)
  ]
  landed-Leads s t r idle l = l
  landed-Leads s t r (missed k) l = l
  landed-Leads s t r (finished k q) l = l
  landed-Leads s t r (entered k) l = l
  landed-Leads s t r (loading k) l = l
  landed-Leads s t r (loaded k v) l = l
  landed-Leads s t r (ends k q) l = l

  return-Inv :
      (c : ℕ) (k : K) (r : Result V) (f : F) (phases : ℕ → Phase K V)
      → phases c ≡ ends k r
      → Inv f phases
      → Inv
          (group.finish (sprint k) f)
          (put_phase c (finished k r) (λ d. landed sprint group (sprint k) r (phases d)))
  return-Inv c k r f phases at inv = record {
    flies = λ d t l.
        let (other, m) = leader d t l in
        rw (group.flying_finish (sprint k) t f, inv.flies d t m, not_this d t other m) refl;
    alone = λ b d t l m. inv.alone b d t (leader b t l).1 (leader d t m).1;
  }
    where
      leader :
          (d : ℕ) (t : Bytes)
          → Leads t
              (put_phase c (finished k r) (λ d. landed sprint group (sprint k) r (phases d)) d)
          → (d ≢ c) × Leads t (phases d)
      leader d t l =
          elim (put_phase-cases c (finished k r) (λ d. landed sprint group (sprint k) r (phases d))
            d) [
              | inl (same, e) ↦ absurd (subst (Leads t) e l)
              | inr (other, e) ↦
                  (other, landed-Leads (sprint k) t r (phases d) (subst (Leads t) e l))
            ]

      not_this : (d : ℕ) (t : Bytes) → d ≢ c → Leads t (phases d) → str_eq (sprint k) t ≡ false
      not_this d t other m = elim (Bool-cases (str_eq (sprint k) t)) [
        | inl e ↦
            absurd (other (inv.alone d c t m (subst (Leads t) (sym at) (str_eq→eq (sprint k) t e))))
        | inr e ↦ e
      ]

  StateInv : State K V F → Type 0
  StateInv s = Inv s.flights s.phases

  Step-StateInv :
      (s s' : State K V F) (m : Move K V) → Step sprint group s m s' → StateInv s → StateInv s'
  unfolding put StateInv
  Step-StateInv s _ _ (stays m) inv = inv
  Step-StateInv s _ _ (called c k now at) inv =
      put_phase-Inv c _ s.flights s.phases (looked (get s.cache k now)) inv
    where
      looked : (o : Option V) (t : Bytes) → Leads t (first_look k o) → Leads t (s.phases c)
      looked (some v) t l = absurd l
      looked none t l = absurd l
  Step-StateInv s _ _ (waited c k at busy) inv =
      put_phase-Inv c (waits k) s.flights s.phases (λ t l. absurd l) inv
  Step-StateInv s _ _ (began c k at free) inv = begin-Inv c k s.flights s.phases free inv
  Step-StateInv s _ _ (looked c k now at) inv = by_look (get s.cache k now)
    where
      by_look : (o : Option V) → StateInv (second_look sprint group c k o s)
      by_look (some v) =
          put_phase-Inv c (ends k (ok v)) s.flights s.phases (λ t l. subst (Leads t) (sym at) l) inv
      by_look none =
          put_phase-Inv c (loading k) s.flights s.phases (λ t l. subst (Leads t) (sym at) l) inv
  Step-StateInv s _ _ (was_answered c k r at) inv =
      put_phase-Inv c (answered k r) s.flights s.phases
        (λ t l. subst (Leads t) (sym at) (by_result r t l)) inv
    where
      by_result : (r : Result V) (t : Bytes) → Leads t (answered k r) → sprint k ≡ t
      by_result (ok v) t l = l
      by_result (err e) t l = l
      by_result crash t l = l
  Step-StateInv s _ _ (stored c k v now at) inv =
      put_phase-Inv c (ends k (ok v)) s.flights s.phases (λ t l. subst (Leads t) (sym at) l) inv
  Step-StateInv s _ _ (returned c k r at) inv = return-Inv c k r s.flights s.phases at inv

  pub moves-Inv :
      (ms : List (Move K V)) (s : State K V F)
      → Inv s.flights s.phases
      → Inv (moves sprint group ms s).flights (moves sprint group ms s).phases
  unfolding moves StateInv
  moves-Inv [] s inv = inv
  moves-Inv (m ∷ ms) s inv =
      moves-Inv ms (move sprint group m s)
        (Step-StateInv s (move sprint group m s) m (move-Step sprint group m s) inv)

  pub no_calls-Inv : Inv group.no_flights (λ _. idle)
  no_calls-Inv = record { flies = λ d t l. absurd l; alone = λ c d t l m. absurd l }
