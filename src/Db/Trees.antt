-- ===== src/Db/Trees.antt =====
-- The statements of an action one by one, for runs in which other actions' statements come between.
use gno_ibc_relayer_api.Prelude.{◌≡◌, refl, Bool, true, false, List, [], ◌∷◌}
use gno_ibc_relayer_api.Prelude.{ℕ}
use gno_ibc_relayer_api.Prelude.Strings.{Bytes}
use gno_ibc_relayer_api.Db.Record.{BridgeRecord}
use gno_ibc_relayer_api.Db.Table.{update, insert_row}
use gno_ibc_relayer_api.Db.Bridge.{upsert_cursor}
use gno_ibc_relayer_api.Db.World.{
  World, Result, ok, err, crash, fault, M, continue, caught, statement, run_statement,
}

-- What is left of an action: its result, or a statement. The statement changes the world, and what
-- comes then depends on the world that it found; the other tree is for its failure.
pub data Tree (A : Type 0) : Type 0 where
  ret : Result A → Tree A
  stmt : (World → World) → (World → Tree A) → Tree A → Tree A

-- The run with no other statements between, by the faults of the world.
abbrev pub interp_faults : {A : Type 0} → List Bool → (World → World) → (World → M A) → M A → M A
interp_faults [] f k e w = k w (f w)
interp_faults (true ∷ rest) f k e w = e (record w { faults = rest })
interp_faults (false ∷ rest) f k e w =
    k (record w { faults = rest }) (f (record w { faults = rest }))

unfoldable pub interp : {A : Type 0} → Tree A → M A
interp (ret r) w = (r, w)
interp (stmt f k e) w = interp_faults w.faults f (λ v. interp (k v)) (interp e) w

unfoldable pub bind_tree : {A B : Type 0} → Tree A → (A → Tree B) → Tree B
bind_tree (ret (ok a)) h = h a
bind_tree (ret (err e)) h = ret (err e)
bind_tree (ret crash) h = ret crash
bind_tree (stmt f k e) h = stmt f (λ w. bind_tree (k w) h) (bind_tree e h)

unfoldable pub attempt_tree : {A : Type 0} → Tree A → Tree (Result A)
attempt_tree (ret r) = ret (caught r)
attempt_tree (stmt f k e) = stmt f (λ w. attempt_tree (k w)) (attempt_tree e)

abbrev pub statement_tree : {A : Type 0} → (World → A × World) → Tree A
statement_tree f = stmt (λ w. (f w).1) (λ w. ret (ok (f w).0)) (ret (err fault))

pub interp-bind :
    {A B : Type 0} (t : Tree A) (h : A → Tree B) (w : World)
    → interp (bind_tree t h) w ≡ continue (interp t w).0 (λ a. interp (h a)) (interp t w).1
unfolding interp bind_tree
interp-bind (ret (ok a)) h w = refl
interp-bind (ret (err e)) h w = refl
interp-bind (ret crash) h w = refl
interp-bind {A} {B} (stmt f k e) h w =
    by_faults (λ v u. interp-bind (k v) h u) (λ v. interp-bind e h v) w.faults
  where
    by_faults :
        ((v u : World)
          → interp (bind_tree (k v) h) u
            ≡ continue (interp (k v) u).0 (λ a. interp (h a)) (interp (k v) u).1)
        → ((v : World)
            → interp (bind_tree e h) v ≡ continue (interp e v).0 (λ a. interp (h a)) (interp e v).1)
        → (l : List Bool)
        → interp_faults l f (λ v. interp (bind_tree (k v) h)) (interp (bind_tree e h)) w
          ≡ continue
              (interp_faults l f (λ v. interp (k v)) (interp e) w).0
              (λ a. interp (h a))
              (interp_faults l f (λ v. interp (k v)) (interp e) w).1
    by_faults good bad [] = good w (f w)
    by_faults good bad (true ∷ l) = bad (record w { faults = l })
    by_faults good bad (false ∷ l) = good (record w { faults = l }) (f (record w { faults = l }))

pub interp-attempt :
    {A : Type 0} (t : Tree A) (w : World)
    → ◌≡◌ {A = Result (Result A) × World}
        (interp (attempt_tree t) w)
        (caught (interp t w).0, (interp t w).1)
unfolding interp attempt_tree
interp-attempt (ret r) w = refl
interp-attempt {A} (stmt f k e) w =
    by_faults (λ v u. interp-attempt (k v) u) (λ v. interp-attempt e v) w.faults
  where
    by_faults :
        ((v u : World)
          → ◌≡◌ {A = Result (Result A) × World}
              (interp (attempt_tree (k v)) u)
              (caught (interp (k v) u).0, (interp (k v) u).1))
        → ((v : World)
            → ◌≡◌ {A = Result (Result A) × World}
                (interp (attempt_tree e) v)
                (caught (interp e v).0, (interp e v).1))
        → (l : List Bool)
        → ◌≡◌ {A = Result (Result A) × World}
            (interp_faults l f (λ v. interp (attempt_tree (k v))) (interp (attempt_tree e)) w)
            (
              caught (interp_faults l f (λ v. interp (k v)) (interp e) w).0,
              (interp_faults l f (λ v. interp (k v)) (interp e) w).1,
            )
    by_faults good bad [] = good w (f w)
    by_faults good bad (true ∷ l) = bad (record w { faults = l })
    by_faults good bad (false ∷ l) = good (record w { faults = l }) (f (record w { faults = l }))

pub interp-statement :
    {A : Type 0} (f : World → A × World) (w : World) → interp (statement_tree f) w ≡ statement f w
unfolding interp statement
interp-statement {A} f w = by_faults w.faults
  where
    by_faults :
        (l : List Bool)
        → interp_faults l
            (λ v. (f v).1)
            (λ v. interp (ret (ok (f v).0)))
            (interp (ret (err fault)))
            w
          ≡ run_statement l f w
    by_faults [] = refl
    by_faults (true ∷ l) = refl
    by_faults (false ∷ l) = refl

-- What one statement of the program's SQL does to the world.
pub data Sql : (World → World) → Type 0 where
  select : Sql (λ w. w)
  update_rows :
      (p : BridgeRecord → Bool) (f : BridgeRecord → BridgeRecord)
      → Sql (λ w. record w { transfers = update p f w.transfers })
  insert_rows : (t : BridgeRecord) → Sql (λ w. record w { transfers = insert_row t w.transfers })
  upsert : (name : Bytes) (i : ℕ) → Sql (λ w. record w { cursors = upsert_cursor name i w.cursors })

-- Every step of the tree is one statement.
abbrev pub IsSql : {A : Type 0} → Tree A → Type 0
IsSql (ret r) = Unit
IsSql (stmt f k e) = Sql f × ((w : World) → IsSql (k w)) × IsSql e

pub IsSql-bind :
    {A B : Type 0} (t : Tree A) (h : A → Tree B)
    → IsSql t
    → ((a : A) → IsSql (h a))
    → IsSql (bind_tree t h)
unfolding bind_tree
IsSql-bind (ret (ok a)) h s k = k a
IsSql-bind (ret (err e)) h s k = tt
IsSql-bind (ret crash) h s k = tt
IsSql-bind (stmt f c e) h s k = (s.0, (λ w. IsSql-bind (c w) h (s.1 w) k), IsSql-bind e h s.2 k)

pub IsSql-attempt : {A : Type 0} (t : Tree A) → IsSql t → IsSql (attempt_tree t)
unfolding attempt_tree
IsSql-attempt (ret r) s = tt
IsSql-attempt (stmt f c e) s = (s.0, (λ w. IsSql-attempt (c w) (s.1 w)), IsSql-attempt e s.2)
