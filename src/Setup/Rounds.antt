-- ===== src/Setup/Rounds.antt =====
-- cmd/setup-trigger/main.go: what a round of the loop does, whatever fails.
use gno_ibc_relayer_api.Prelude.{
  Bool, true, false, not, ◌&&◌, Option, none, some, List, [], ◌∷◌, ◌++◌, ◌≡◌, refl, sym, subst, ap,
  ◌∙◌, any, if◌then◌else◌, Bool-cases, inl, inr, ◌⊎◌,
}
use gno_ibc_relayer_api.Prelude.Strings.{Bytes, str_eq}
use gno_ibc_relayer_api.Setup.Catalog.{
  Catalog, Trigger, pure, statement, put, put_function, source, has_trigger, add_trigger, is_some,
}
use gno_ibc_relayer_api.Setup.Triggers.{
  TriggerDef, function_text, create_function, trigger_exists, create_trigger, set_up,
}
use gno_ibc_relayer_api.Setup.Functions.{
  put-put, source-put, apart, put-present, has_trigger-last, has_trigger-kept,
}

-- The catalog, in a time without failures.
abbrev pub calm : Catalog → Catalog
calm c = record c { faults = [] }

-- The function that a definition asks for is there.
abbrev pub text_of : TriggerDef → Bytes
text_of t = function_text t.channel t.filter

abbrev pub with_function : TriggerDef → Catalog → Catalog
with_function t c = record c { functions = put t.fn_name (text_of t) c.functions }

-- A function of the name returns something else.
abbrev pub is_refused : TriggerDef → Catalog → Bool
is_refused t c = any (λ n. str_eq n t.fn_name) c.others

-- The function and the trigger of a definition are there.
pub record IsReady (t : TriggerDef) (c : Catalog) : Type 0 where
  pub allowed : is_refused t c ≡ false
  pub has_function : source t.fn_name c.functions ≡ some (text_of t)
  pub exists : has_trigger t.table t.tg_name c.triggers ≡ true

-- What a round does from any failures on: nothing, only its function, or all that it does without them.
abbrev pub Outcomes : TriggerDef → Catalog → Option (Unit {0}) × Catalog → Type 0
Outcomes t c (r, c') =
    ((r ≡ none) × (calm c' ≡ calm c))
    ⊎ (((r ≡ none) × (is_refused t c ≡ false) × (calm c' ≡ calm (with_function t c)))
        ⊎ ((r ≡ some tt) × (set_up t (calm c) ≡ (some tt, calm c'))))

-- The trigger of a definition, and whether it can be created.
abbrev trigger_of : TriggerDef → Trigger
trigger_of t = record { name = t.tg_name; table = t.table; function = t.fn_name }

-- Creating a trigger that is missing depends on no failure to come.
granted : TriggerDef → Catalog → Bool
granted t c =
    any (λ n. str_eq n t.table) c.tables
    && (is_some (source t.fn_name (with_function t c).functions)
        && not (has_trigger t.table t.tg_name c.triggers))

added :
    (t : TriggerDef) (c : Catalog) (fs : List Bool)
    → is_refused t c ≡ false
    → has_trigger t.table t.tg_name c.triggers ≡ false
    → Outcomes t c (add_trigger (trigger_of t) (record (with_function t c) { faults = fs }))
unfolding set_up create_function put_function trigger_exists create_trigger statement add_trigger
    granted
added t c fs a h = elim (Bool-cases (granted t c)) [
  | inl e ↦ rw (add_trigger, e) (inr (inr (refl, rw (set_up, a, h, add_trigger, e) refl)))
  | inr e ↦ rw (add_trigger, e) (inr (inl (refl, a, refl)))
]

last_step :
    (t : TriggerDef) (c : Catalog) (fs : List Bool)
    → is_refused t c ≡ false
    → Outcomes t c (
        (if has_trigger t.table t.tg_name c.triggers then pure tt else create_trigger t)
          (record (with_function t c) { faults = fs }))
unfolding set_up create_function put_function trigger_exists create_trigger statement
last_step t c fs a = elim (Bool-cases (has_trigger t.table t.tg_name c.triggers)) [
  | inl e ↦ rw e (inr (inr (refl, rw (a, e) refl)))
  | inr e ↦
      subst
        (λ b.
          Outcomes t c (
            (if b then pure tt else create_trigger t) (record (with_function t c) { faults = fs })))
        (sym e) (by_last e fs)
]
  where
    by_last :
        has_trigger t.table t.tg_name c.triggers ≡ false
        → (fs : List Bool)
        → Outcomes t c (create_trigger t (record (with_function t c) { faults = fs }))
    by_last e [] = added t c [] a e
    by_last e (true ∷ fs) = inr (inl (refl, a, refl))
    by_last e (false ∷ fs) = added t c fs a e

-- What a round does after its function.
rest_of : TriggerDef → Catalog → Option (Unit {0}) × Catalog
rest_of t c = (if has_trigger t.table t.tg_name c.triggers then pure tt else create_trigger t) c

put_step :
    (t : TriggerDef) (c : Catalog) (o : Option (Unit {0}) × Catalog) (fs : List Bool)
    → set_up t (record c { faults = fs }) ≡ o
    → Outcomes t c o
    → Outcomes t c (set_up t (record c { faults = fs }))
put_step t c o fs e h = subst (Outcomes t c) (sym e) h

allowed-Outcomes :
    (t : TriggerDef) (c : Catalog) (fs : List Bool)
    → is_refused t c ≡ false
    → Outcomes t c (set_up t (record c { faults = fs }))
unfolding set_up create_function put_function trigger_exists statement rest_of
allowed-Outcomes t c [] a =
    put_step t c (rest_of t (record (with_function t c) { faults = [] })) [] (rw a refl)
      (last_step t c [] a)
allowed-Outcomes t c (true ∷ fs) a = inl (refl, refl)
allowed-Outcomes t c (false ∷ []) a =
    put_step t c (rest_of t (record (with_function t c) { faults = [] })) (false ∷ []) (rw a refl)
      (last_step t c [] a)
allowed-Outcomes t c (false ∷ true ∷ fs) a =
    put_step t c (none, record (with_function t c) { faults = fs }) (false ∷ true ∷ fs) (rw a refl)
      (inr (inl (refl, a, refl)))
allowed-Outcomes t c (false ∷ false ∷ fs) a =
    put_step t c (rest_of t (record (with_function t c) { faults = fs })) (false ∷ false ∷ fs)
      (rw a refl) (last_step t c fs a)

refused-Outcomes :
    (t : TriggerDef) (c : Catalog) (fs : List Bool)
    → is_refused t c ≡ true
    → Outcomes t c (set_up t (record c { faults = fs }))
unfolding set_up create_function put_function statement
refused-Outcomes t c [] a = rw a (inl (refl, refl))
refused-Outcomes t c (true ∷ fs) a = inl (refl, refl)
refused-Outcomes t c (false ∷ fs) a = rw a (inl (refl, refl))

pub by_faults :
    (t : TriggerDef) (c : Catalog) (fs : List Bool)
    → Outcomes t c (set_up t (record c { faults = fs }))
by_faults t c fs = elim (Bool-cases (is_refused t c)) [
  | inl a ↦ refused-Outcomes t c fs a
  | inr a ↦ allowed-Outcomes t c fs a
]

-- A round after its function was put does the same.
pub set_up-put :
    (t : TriggerDef) (c : Catalog)
    → is_refused t c ≡ false
    → set_up t (calm (with_function t c)) ≡ set_up t (calm c)
unfolding set_up create_function put_function statement
set_up-put t c a = rw (a, put-put t.fn_name (text_of t) c.functions) refl

-- Where the function and the trigger are there, a round changes nothing.
pub set_up-IsReady :
    (t : TriggerDef) (c : Catalog) → IsReady t c → set_up t (calm c) ≡ (some tt, calm c)
unfolding set_up create_function put_function trigger_exists statement
set_up-IsReady t c r =
    rw (r.allowed, put-present t.fn_name (text_of t) c.functions r.has_function, r.exists) refl

-- The catalog after a round that creates the trigger.
abbrev with_trigger : TriggerDef → Catalog → Catalog
with_trigger t c = record (calm (with_function t c)) { triggers = c.triggers ++ trigger_of t ∷ [] }

-- A round that succeeds, without failures.
abbrev Succeeds : TriggerDef → Catalog → Type 0
Succeeds t c =
    ((has_trigger t.table t.tg_name c.triggers ≡ true)
      × (set_up t (calm c) ≡ (some tt, calm (with_function t c))))
    ⊎ (set_up t (calm c) ≡ (some tt, with_trigger t c))

-- The results of a round without failures.
abbrev Forms : TriggerDef → Catalog → Type 0
Forms t c = ((set_up t (calm c)).0 ≡ none) ⊎ ((is_refused t c ≡ false) × Succeeds t c)

allowed-Forms : (t : TriggerDef) (c : Catalog) → is_refused t c ≡ false → Forms t c
unfolding set_up create_function put_function trigger_exists create_trigger statement add_trigger
    granted
allowed-Forms t c a = elim (Bool-cases (has_trigger t.table t.tg_name c.triggers)) [
  | inl e ↦ inr (a, inl (e, rw (a, e) refl))
  | inr e ↦ elim (Bool-cases (granted t c)) [
    | inl g ↦ inr (a, inr (rw (set_up, a, e, add_trigger, g) refl))
    | inr g ↦ inl (rw (set_up, a, e, add_trigger, g) refl)
  ]
]

forms : (t : TriggerDef) (c : Catalog) → Forms t c
unfolding set_up create_function put_function statement
forms t c = elim (Bool-cases (is_refused t c)) [
  | inl a ↦ inl (rw a refl)
  | inr a ↦ allowed-Forms t c a
]

-- A round that succeeds leaves its function and its trigger, and keeps the other ones.
pub record IsSetUp (t : TriggerDef) (c x : Catalog) : Type 0 where
  pub allowed : is_refused t c ≡ false
  pub same_others : x.others ≡ c.others
  pub functions_put : x.functions ≡ put t.fn_name (text_of t) c.functions
  pub created : has_trigger t.table t.tg_name x.triggers ≡ true
  pub kept :
      (table name : Bytes)
      → has_trigger table name c.triggers ≡ true
      → has_trigger table name x.triggers ≡ true

same_catalog :
    (x y : Catalog) (P : Catalog → Type 0)
    → ◌≡◌ {A = Option (Unit {0}) × Catalog} (some tt, x) (some tt, y)
    → P x
    → P y
same_catalog x y P e = subst P (ap (λ p. p.1) e)

pub set_up-IsSetUp :
    (t : TriggerDef) (c x : Catalog) → set_up t (calm c) ≡ (some tt, x) → IsSetUp t c x
unfolding has_trigger
set_up-IsSetUp t c x e = elim (forms t c) [
  | inl none_left ↦ absurd (apart tt (sym (ap (λ p. p.0) e) ∙ none_left))
  | inr (a, inl (had, f)) ↦ same_catalog _ x (IsSetUp t c) (sym f ∙ e) (record {
    allowed = a;
    same_others = refl;
    functions_put = refl;
    created = had;
    kept = λ table name k. k;
  })
  | inr (a, inr f) ↦ same_catalog _ x (IsSetUp t c) (sym f ∙ e) (record {
    allowed = a;
    same_others = refl;
    functions_put = refl;
    created = has_trigger-last c.triggers (trigger_of t);
    kept = λ table name k. has_trigger-kept table name c.triggers (trigger_of t) k;
  })
]

-- The table of a definition is there, and no function of its name returns something else.
abbrev pub Accepts : List Bytes → List Bytes → TriggerDef → Type 0
Accepts tables others t =
    (any (λ n. str_eq n t.table) tables ≡ true) × (any (λ n. str_eq n t.fn_name) others ≡ false)

abbrev pub CanSetUp : TriggerDef → Catalog → Type 0
CanSetUp t c = Accepts c.tables c.others t

-- Without failures, a round then ends well.
pub set_up-completes :
    (t : TriggerDef) (c : Catalog)
    → CanSetUp t c
    → (x : Catalog) × (set_up t (calm c) ≡ (some tt, calm x))
      × (x.tables ≡ c.tables)
      × (x.others ≡ c.others)
unfolding set_up create_function put_function trigger_exists create_trigger statement add_trigger
    granted
set_up-completes t c (h, a) = elim (Bool-cases (has_trigger t.table t.tg_name c.triggers)) [
  | inl e ↦ (with_function t c, rw (a, e) refl, refl, refl)
  | inr e ↦
      let g : granted t c ≡ true =
        rw (granted, h, e, source-put t.fn_name (text_of t) c.functions) refl in
      (with_trigger t c, rw (set_up, a, e, add_trigger, g) refl, refl, refl)
]
