-- ===== src/Setup/Recovery.antt =====
-- cmd/setup-trigger/main.go: what repeated runs establish.
use gno_ibc_relayer_api.Prelude.{
  Option, none, some, List, [], ◌∷◌, ◌≡◌, ◌≢◌, refl, sym, ap, ◌∙◌, arith, any, All, inl, inr,
}
use gno_ibc_relayer_api.Prelude.Strings.{str_eq}
use gno_ibc_relayer_api.Setup.Catalog.{Catalog, source, has_trigger, continue}
use gno_ibc_relayer_api.Setup.Triggers.{TriggerDef, triggers, set_up, set_up_all, setup_triggers}
use gno_ibc_relayer_api.Setup.Functions.{source-put, apart, source-put_other}
use gno_ibc_relayer_api.Setup.Rounds.{
  calm, is_refused, text_of, with_function, IsReady, IsSetUp, Outcomes, by_faults, set_up-put,
  set_up-IsReady, set_up-IsSetUp,
}

-- A definition stays ready in a catalog of the same functions and triggers.
pub IsReady-calm : (t : TriggerDef) (x y : Catalog) → calm x ≡ calm y → IsReady t y → IsReady t x
IsReady-calm t x y e r = record {
  allowed = ap (is_refused t) e ∙ r.allowed;
  has_function = ap (λ c. source t.fn_name c.functions) e ∙ r.has_function;
  exists = ap (λ c. has_trigger t.table t.tg_name c.triggers) e ∙ r.exists;
}

IsReady-with_function :
    (t u : TriggerDef) (c : Catalog)
    → u.fn_name ≢ t.fn_name
    → IsReady t c
    → IsReady t (with_function u c)
IsReady-with_function t u c h r = record {
  allowed = r.allowed;
  has_function = source-put_other t.fn_name u.fn_name (text_of u) c.functions h ∙ r.has_function;
  exists = r.exists;
}

IsReady-other :
    (t u : TriggerDef) (c x : Catalog)
    → u.fn_name ≢ t.fn_name
    → IsSetUp u c x
    → IsReady t c
    → IsReady t x
IsReady-other t u c x h s r = record {
  allowed = ap (λ ns. any (λ n. str_eq n t.fn_name) ns) s.same_others ∙ r.allowed;
  has_function =
      ap (source t.fn_name) s.functions_put ∙ (IsReady-with_function t u c h r).has_function;
  exists = s.kept t.table t.tg_name r.exists;
}

pub IsSetUp-IsReady : (t : TriggerDef) (c x : Catalog) → IsSetUp t c x → IsReady t x
IsSetUp-IsReady t c x s = record {
  allowed = ap (λ ns. any (λ n. str_eq n t.fn_name) ns) s.same_others ∙ s.allowed;
  has_function =
      ap (source t.fn_name) s.functions_put ∙ source-put t.fn_name (text_of t) c.functions;
  exists = s.created;
}

-- Whatever fails, a round keeps the other definitions ready.
set_up-keeps :
    (t u : TriggerDef) (c : Catalog)
    → u.fn_name ≢ t.fn_name
    → IsReady t c
    → IsReady t (set_up u c).1
set_up-keeps t u c h r = elim (by_faults u c c.faults) [
  | inl (_, e) ↦ IsReady-calm t _ c e r
  | inr (inl (_, _, e)) ↦ IsReady-calm t _ (with_function u c) e (IsReady-with_function t u c h r)
  | inr (inr (_, e)) ↦
      IsReady-calm t _ (calm (set_up u c).1) refl
        (IsReady-other t u c _ h (set_up-IsSetUp u c _ e) r)
]

pub set_up_all-keeps :
    (t : TriggerDef) (ts : List TriggerDef) (c : Catalog)
    → All (λ u. u.fn_name ≢ t.fn_name) ts
    → IsReady t c
    → IsReady t (set_up_all ts c).1
unfolding set_up_all
set_up_all-keeps t [] c h r = r
set_up_all-keeps t (u ∷ ts) c h r =
    by_result (λ x k. set_up_all-keeps t ts x h.1 k) (set_up u c).0 (set_up u c).1
      (set_up-keeps t u c h.0 r)
  where
    by_result :
        ((x : Catalog) → IsReady t x → IsReady t (set_up_all ts x).1)
        → (o : Option (Unit {0})) (x : Catalog) → IsReady t x
        → IsReady t (continue o (λ _. set_up_all ts) x).1
    by_result rest none x k = k
    by_result rest (some _) x k = rest x k

-- The functions have distinct names.
abbrev pub IsDistinct : List TriggerDef → Type 0
IsDistinct [] = Unit
IsDistinct (t ∷ ts) = All (λ u. u.fn_name ≢ t.fn_name) ts × IsDistinct ts

-- Running again, without failures, after a run in which any statements failed, gives what a run
-- without failures would have given at first.
set_up_all-again :
    (ts : List TriggerDef) (c : Catalog)
    → IsDistinct ts
    → set_up_all ts (calm (set_up_all ts c).1) ≡ set_up_all ts (calm c)
unfolding set_up_all
set_up_all-again [] c h = refl
set_up_all-again (t ∷ ts) c h =
    by_result (λ x. set_up_all-again ts x h.1) (set_up t c).0 (set_up t c).1
      (by_faults t c c.faults)
  where
    by_result :
        ((x : Catalog) → set_up_all ts (calm (set_up_all ts x).1) ≡ set_up_all ts (calm x))
        → (o : Option (Unit {0})) (x : Catalog) → Outcomes t c (o, x)
        → set_up_all (t ∷ ts) (calm (continue o (λ _. set_up_all ts) x).1)
          ≡ set_up_all (t ∷ ts) (calm c)
    by_result rest none x (inl (_, e)) = ap (set_up_all (t ∷ ts)) e
    by_result rest none x (inr (inl (_, a, e))) =
        ap (set_up_all (t ∷ ts)) e
        ∙ ap (λ p. continue p.0 (λ _. set_up_all ts) p.1) (set_up-put t c a)
    by_result rest none x (inr (inr (e, _))) = absurd (apart tt (sym e))
    by_result rest (some _) x (inl (e, _)) = absurd (apart _ e)
    by_result rest (some _) x (inr (inl (e, _, _))) = absurd (apart _ e)
    by_result rest (some _) x (inr (inr (_, e))) =
        let ready : IsReady t x =
          IsReady-calm t x (calm x) refl
            (IsSetUp-IsReady t c (calm x) (set_up-IsSetUp t c (calm x) e)) in
        let same : set_up t (calm (set_up_all ts x).1) ≡ (some tt, calm (set_up_all ts x).1) =
          set_up-IsReady t _ (set_up_all-keeps t ts x h.0 ready) in
        ap (λ p. continue p.0 (λ _. set_up_all ts) p.1) same
        ∙ rest x
        ∙ sym (ap (λ p. continue p.0 (λ _. set_up_all ts) p.1) e)

pub triggers-IsDistinct : IsDistinct triggers
triggers-IsDistinct =
    (((λ e. ground arith), ((λ e. ground arith), tt)), (((λ e. ground arith), tt), (tt, tt)))

-- Running the tool again, without failures, after a run in which any statements failed, has the result and
-- leaves the catalog of a run without failures from the start on; after a run without failures, a
-- further one changes nothing.
pub setup_triggers-again :
    (c : Catalog) → setup_triggers (calm (setup_triggers c).1) ≡ setup_triggers (calm c)
unfolding setup_triggers
setup_triggers-again c = set_up_all-again triggers c triggers-IsDistinct
