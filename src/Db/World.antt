-- ===== src/Db/World.antt =====
-- The two databases that a process of the program sees, and the monad of its statements.
-- A statement fails or takes effect as a whole. `faults` says of each coming statement whether it
-- fails, with the tables as they were; after its end no statement fails.
use gno_ibc_relayer_api.Prelude.{ℕ, Bool, true, false, List, [], ◌∷◌}
use gno_ibc_relayer_api.Prelude.Strings.{Bytes}
use gno_ibc_relayer_api.Json.{Raw}
use gno_ibc_relayer_api.Db.Record.{BridgeRecord}

-- Rows of the relayer's own tables. `parents` and `message` are read from `done` and `failed`.
pub record QueueRow : Type 0 where
  pub id : ℕ
  pub item : Raw
  pub created_at : ℕ

pub record DoneRow : Type 0 where
  pub id : ℕ
  pub item : Raw
  pub parents : List ℕ
  pub created_at : ℕ

pub record FailedRow : Type 0 where
  pub id : ℕ
  pub item : Raw
  pub parents : List ℕ
  pub message : Bytes

pub record World : Type 0 where
  pub transfers : List BridgeRecord
  pub cursors : List (Bytes × ℕ)
  pub queue : List QueueRow
  pub done : List DoneRow
  pub failed : List FailedRow
  pub faults : List Bool

-- `fault` is any failure of the database; `negative_window` is the refusal of a negative LIMIT or
-- OFFSET, and `not_found` the error that `scanBridgeRecord` makes of a missing row.
pub data DbError : Type 0 where
  fault negative_window not_found : DbError

-- `crash` is a run-time panic, which nothing in the program recovers from.
pub data Result {ℓ} (A : Type ℓ) : Type ℓ where
  ok : A → Result A
  err : DbError → Result A
  crash : Result A

abbrev pub M : Type 0 → Type 0
M A = World → Result A × World

abbrev pub continue : {A B : Type 0} → Result A → (A → M B) → M B
continue (ok a) f w = f a w
continue (err e) f w = (err e, w)
continue crash f w = (crash, w)

infixl 5 ◌>>=◌ ◌>>◌
abbrev pub ◌>>=◌ : {A B : Type 0} → M A → (A → M B) → M B
◌>>=◌ m f w = let (r, w') = m w in continue r f w'

abbrev pub ◌>>◌ : {A B : Type 0} → M A → M B → M B
m >> k = m >>= λ _. k

abbrev pub pure : {A : Type 0} → A → M A
pure a w = (ok a, w)

abbrev pub raise : {A : Type 0} → DbError → M A
raise e w = (err e, w)

abbrev pub caught : {A : Type 0} → Result A → Result (Result A)
caught (ok a) = ok (ok a)
caught (err e) = ok (err e)
caught crash = crash

-- `if err := m; err != nil { log … }`: an error becomes a value, and a panic goes on.
abbrev pub attempt : {A : Type 0} → M A → M (Result A)
attempt m w = let (r, w') = m w in (caught r, w')

abbrev pub run_statement : {A : Type 0} → List Bool → (World → A × World) → M A
run_statement [] f w = let (a, w') = f w in (ok a, w')
run_statement (true ∷ rest) f w = (err fault, record w { faults = rest })
run_statement (false ∷ rest) f w = let (a, w') = f (record w { faults = rest }) in (ok a, w')

-- One statement sent to either database.
unfoldable pub statement : {A : Type 0} → (World → A × World) → M A
statement f w = run_statement w.faults f w

-- A SELECT.
abbrev pub query : {A : Type 0} → (World → A) → M A
query f = statement λ w. (f w, w)

abbrev pub panic : {A : Type 0} → M A
panic w = (crash, w)
