-- ===== src/Setup/Complete.antt =====
-- cmd/setup-trigger/main.go: what a complete run leaves, and when a run completes.
use gno_ibc_relayer_api.Prelude.{
  Option, none, some, List, [], ◌∷◌, ◌≡◌, refl, sym, subst, ap, ◌∙◌, All, inl, inr,
}
use gno_ibc_relayer_api.Setup.Catalog.{Catalog, continue}
use gno_ibc_relayer_api.Setup.Triggers.{TriggerDef, triggers, set_up, set_up_all, setup_triggers}
use gno_ibc_relayer_api.Setup.Functions.{apart}
use gno_ibc_relayer_api.Setup.Rounds.{
  calm, IsReady, by_faults, set_up-IsSetUp, Accepts, CanSetUp, set_up-completes,
}
use gno_ibc_relayer_api.Setup.Recovery.{
  IsReady-calm, IsSetUp-IsReady, set_up_all-keeps, IsDistinct, triggers-IsDistinct,
}

-- A round that ends well leaves its definition ready, whatever fails later.
set_up-IsReady_after :
    (t : TriggerDef) (c : Catalog) → (set_up t c).0 ≡ some tt → IsReady t (set_up t c).1
set_up-IsReady_after t c h = elim (by_faults t c c.faults) [
  | inl (e, _) ↦ absurd (apart tt (sym h ∙ e))
  | inr (inl (e, _, _)) ↦ absurd (apart tt (sym h ∙ e))
  | inr (inr (_, e)) ↦
      IsReady-calm t _ (calm (set_up t c).1) refl (IsSetUp-IsReady t c _ (set_up-IsSetUp t c _ e))
]

set_up_all-IsReady :
    (ts : List TriggerDef) (c : Catalog)
    → IsDistinct ts
    → (set_up_all ts c).0 ≡ some tt
    → All (λ t. IsReady t (set_up_all ts c).1) ts
unfolding set_up_all
set_up_all-IsReady [] c h e = tt
set_up_all-IsReady (t ∷ ts) c h e =
    by_result (set_up t c).0 (set_up t c).1 (set_up-IsReady_after t c)
      (set_up_all-IsReady ts (set_up t c).1 h.1) e
  where
    by_result :
        (o : Option (Unit {0})) (x : Catalog)
        → (o ≡ some tt → IsReady t x)
        → ((set_up_all ts x).0 ≡ some tt → All (λ u. IsReady u (set_up_all ts x).1) ts)
        → (continue o (λ _. set_up_all ts) x).0 ≡ some tt
        → All (λ u. IsReady u (continue o (λ _. set_up_all ts) x).1) (t ∷ ts)
    by_result none x ready rest k = absurd (apart tt (sym k))
    by_result (some _) x ready rest k = (set_up_all-keeps t ts x h.0 (ready refl), rest k)

-- Whatever statements fail, a run that says that the setup is complete has left each function with its
-- text and each trigger on its table.
pub setup_triggers-IsReady :
    (c : Catalog)
    → (setup_triggers c).0 ≡ some tt
    → All (λ t. IsReady t (setup_triggers c).1) triggers
unfolding setup_triggers
setup_triggers-IsReady c = set_up_all-IsReady triggers c triggers-IsDistinct

set_up_all-completes :
    (ts : List TriggerDef) (c : Catalog)
    → All (λ t. CanSetUp t c) ts
    → (set_up_all ts (calm c)).0 ≡ some tt
unfolding set_up_all
set_up_all-completes [] c h = refl
set_up_all-completes (t ∷ ts) c h =
    let (x, done, tables, others) = set_up-completes t c h.0 in
    ap (λ p. (continue p.0 (λ _. set_up_all ts) p.1).0) done
    ∙ set_up_all-completes ts x (
        subst (λ ns. All (Accepts ns x.others) ts) (sym tables)
          (subst (λ ns. All (Accepts c.tables ns) ts) (sym others) h.1))

-- Without failures, the setup completes wherever the tables queue, done and failed are there, and no
-- function of one of the three names returns something else than `trigger`.
pub setup_triggers-completes :
    (c : Catalog) → All (λ t. CanSetUp t c) triggers → (setup_triggers (calm c)).0 ≡ some tt
unfolding setup_triggers
setup_triggers-completes c h = set_up_all-completes triggers c h
