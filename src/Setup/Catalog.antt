-- ===== src/Setup/Catalog.antt =====
-- What cmd/setup-trigger changes: the functions and triggers of the relayer's database.
-- A statement fails or takes effect as a whole; `faults` says of each coming statement whether it
-- fails, and after its end none does. `none` is log.Fatalf, which ends the program.
use gno_ibc_relayer_api.Prelude.{
  Bool, true, false, not, ◌&&◌, Option, none, some, List, [], ◌∷◌, ◌++◌, any, if◌then◌else◌,
}
use gno_ibc_relayer_api.Prelude.Strings.{Bytes, str_eq}

pub record Trigger : Type 0 where
  pub name : Bytes
  pub table : Bytes
  pub function : Bytes

-- `functions` has the functions without parameters that return `trigger`, by name and body; `others` the
-- names of those that return something else.
pub record Catalog : Type 0 where
  pub tables : List Bytes
  pub functions : List (Bytes × Bytes)
  pub others : List Bytes
  pub triggers : List Trigger
  pub faults : List Bool

abbrev pub Run : Type 0 → Type 0
Run A = Catalog → Option A × Catalog

abbrev pub continue : {A B : Type 0} → Option A → (A → Run B) → Run B
continue (some a) f c = f a c
continue none f c = (none, c)

infixl 5 ◌>>=◌ ◌>>◌
abbrev pub ◌>>=◌ : {A B : Type 0} → Run A → (A → Run B) → Run B
◌>>=◌ m f c = let (r, c') = m c in continue r f c'

abbrev pub ◌>>◌ : {A B : Type 0} → Run A → Run B → Run B
m >> k = m >>= λ _. k

abbrev pub pure : {A : Type 0} → A → Run A
pure a c = (some a, c)

abbrev pub run_statement : {A : Type 0} → List Bool → Run A → Run A
run_statement [] f c = f c
run_statement (true ∷ rest) f c = (none, record c { faults = rest })
run_statement (false ∷ rest) f c = f (record c { faults = rest })

unfoldable pub statement : {A : Type 0} → Run A → Run A
statement f c = run_statement c.faults f c

-- CREATE OR REPLACE FUNCTION … RETURNS trigger, by name and body, where the name is free or stands for
-- such a function.
unfoldable pub put : Bytes → Bytes → List (Bytes × Bytes) → List (Bytes × Bytes)
put name body [] = (name, body) ∷ []
put name body ((n, b) ∷ fs) = if str_eq n name then (name, body) ∷ fs else (n, b) ∷ put name body fs

unfoldable pub source : Bytes → List (Bytes × Bytes) → Option Bytes
source name [] = none
source name ((n, b) ∷ fs) = if str_eq n name then some b else source name fs

-- `relname = table AND tgname = name`
unfoldable pub has_trigger : Bytes → Bytes → List Trigger → Bool
has_trigger table name ts = any (λ t. str_eq t.table table && str_eq t.name name) ts

abbrev pub is_some : {A : Type 0} → Option A → Bool
is_some (some a) = true
is_some none = false

-- CREATE OR REPLACE FUNCTION does not change the return type of a function that is there.
unfoldable pub put_function : Bytes → Bytes → Run (Unit {0})
unfolding put
put_function name body c =
    if any (λ n. str_eq n name) c.others
    then (none, c)
    else (some tt, record c { functions = put name body c.functions })

-- CREATE TRIGGER needs the table and the function, and refuses a name that the table has already.
unfoldable pub add_trigger : Trigger → Run (Unit {0})
unfolding source has_trigger
add_trigger t c =
    if any (λ n. str_eq n t.table) c.tables
      && (is_some (source t.function c.functions) && not (has_trigger t.table t.name c.triggers))
    then (some tt, record c { triggers = c.triggers ++ t ∷ [] })
    else (none, c)
