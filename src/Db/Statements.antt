-- ===== src/Db/Statements.antt =====
-- What one statement may end in.
use gno_ibc_relayer_api.Prelude.{◌≡◌, refl, List, [], ◌∷◌, Bool, true, false}
use gno_ibc_relayer_api.Db.World.{
  crash, continue, pure, ◌>>=◌, World, M, Result, ok, err, DbError, fault, statement, query,
  run_statement,
}

-- A statement leaves all but the faults as they were, or takes effect.
pub statement_cases :
    {A : Type 0} (P : World → Type 0) (f : World → A × World) (w : World)
    → ((l : List Bool) → P (record w { faults = l }))
    → ((l : List Bool) → P (f (record w { faults = l })).1)
    → P (statement f w).1
unfolding statement
statement_cases P f w before after = by_faults w.faults
  where
    by_faults : (l : List Bool) → P (run_statement l f w).1
    by_faults [] = after w.faults
    by_faults (true ∷ l) = before l
    by_faults (false ∷ l) = after l

-- A statement fails with the tables as they were, or succeeds with its value.
pub result_cases :
    {A : Type 0} (P : Result A × World → Type 0) (f : World → A × World) (w : World)
    → ((l : List Bool) (e : DbError) → P (err e, record w { faults = l }))
    → ((l : List Bool) → P (ok (f (record w { faults = l })).0, (f (record w { faults = l })).1))
    → P (statement f w)
unfolding statement
result_cases P f w fails succeeds = by_faults w.faults
  where
    by_faults : (l : List Bool) → P (run_statement l f w)
    by_faults [] = succeeds w.faults
    by_faults (true ∷ l) = fails l fault
    by_faults (false ∷ l) = succeeds l

-- A query that succeeds has the answer of the tables, which it leaves as they are.
pub query_cases :
    {A : Type 0} (P : Result A × World → Type 0) (f : World → A) (w : World)
    → ((l : List Bool) (e : DbError) → P (err e, record w { faults = l }))
    → ((l : List Bool) → P (ok (f (record w { faults = l })), record w { faults = l }))
    → P (query f w)
query_cases P f w = result_cases P (λ v. (f v, v)) w

-- An action that leaves a unit, followed by nothing.
pub bind-pure : (m : M (Unit {0})) (w : World) → (m >>= λ _. pure tt) w ≡ m w
bind-pure m w = by_result (m w).0 (m w).1
  where
    by_result :
        (r : Result (Unit {0})) (v : World)
        → ◌≡◌ {A = Result (Unit {0}) × World} (continue r (λ _. pure tt) v) (r, v)
    by_result (ok u) v = refl
    by_result (err e) v = refl
    by_result crash v = refl

pub >>=-congr :
    {A B : Type 0} (m : M A) (f g : A → M B)
    → ((a : A) (v : World) → f a v ≡ g a v)
    → (w : World) → (m >>= f) w ≡ (m >>= g) w
>>=-congr {A} {B} m f g same w = by_result (m w).0 (m w).1
  where
    by_result : (r : Result A) (v : World) → continue r f v ≡ continue r g v
    by_result (ok a) v = same a v
    by_result (err e) v = refl
    by_result crash v = refl
