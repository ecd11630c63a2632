-- ===== src/Db/Unique.antt =====
-- internal/db/bridge.go: no statement of `BridgeDB` makes two rows with one id or one packet hash.
use gno_ibc_relayer_api.Prelude.{
  ℕ, ◌≡◌, ◌≢◌, sym, ◌∙◌, inl, inr, Bool, false, List, [], ◌∷◌, ◌++◌, arith, ◌==◌, All, any, keep,
  Bool-cases,
}
use gno_ibc_relayer_api.Prelude.Strings.{Bytes, str_eq, str_eq_iff}
use gno_ibc_relayer_api.Db.Record.{BridgeRecord}
use gno_ibc_relayer_api.Db.World.{World}
use gno_ibc_relayer_api.Db.Table.{update, insert_row}

module _ {K : Type 0} (key : BridgeRecord → K) where
  -- No row has the key.
  abbrev pub IsFree : K → List BridgeRecord → Type 0
  IsFree k rows = All (λ r. key r ≢ k) rows

  abbrev pub IsUniqueBy : List BridgeRecord → Type 0
  IsUniqueBy [] = Unit
  IsUniqueBy (r ∷ rows) = IsFree (key r) rows × IsUniqueBy rows

  module _ (p : BridgeRecord → Bool) (f : BridgeRecord → BridgeRecord)
      (keeps : (r : BridgeRecord) → key (f r) ≡ key r) where
    update-IsFree : (k : K) (rows : List BridgeRecord) → IsFree k rows → IsFree k (update p f rows)
    unfolding update
    update-IsFree k [] h = tt
    update-IsFree k (r ∷ rows) h = elim (Bool-cases (p r)) [
      | inl e ↦ rw e ((λ same. h.0 (sym (keeps r) ∙ same)), update-IsFree k rows h.1)
      | inr e ↦ rw e (h.0, update-IsFree k rows h.1)
    ]

    update-IsUniqueBy : (rows : List BridgeRecord) → IsUniqueBy rows → IsUniqueBy (update p f rows)
    unfolding update
    update-IsUniqueBy [] h = tt
    update-IsUniqueBy (r ∷ rows) h = elim (Bool-cases (p r)) [
      | inl e ↦ rw (e, keeps r) (update-IsFree (key r) rows h.0, update-IsUniqueBy rows h.1)
      | inr e ↦ rw e (update-IsFree (key r) rows h.0, update-IsUniqueBy rows h.1)
    ]

  append-IsFree :
      (k : K) (t : BridgeRecord) (rows : List BridgeRecord)
      → key t ≢ k
      → IsFree k rows
      → IsFree k (rows ++ t ∷ [])
  append-IsFree k t [] other h = (other, tt)
  append-IsFree k t (r ∷ rows) other h = (h.0, append-IsFree k t rows other h.1)

  pub append-IsUniqueBy :
      (t : BridgeRecord) (rows : List BridgeRecord)
      → IsFree (key t) rows
      → IsUniqueBy rows
      → IsUniqueBy (rows ++ t ∷ [])
  append-IsUniqueBy t [] free h = (tt, tt)
  append-IsUniqueBy t (r ∷ rows) free h = (
    append-IsFree (key r) t rows (λ same. free.0 (sym same)) h.0,
    append-IsUniqueBy t rows free.1 h.1,
  )

any-IsFree :
    (i : ℕ) (rows : List BridgeRecord)
    → any (λ r. r.id == i) rows ≡ false
    → IsFree (λ r. r.id) i rows
unfolding any
any-IsFree i [] h = tt
any-IsFree i (r ∷ rows) h = ground (arith, any-IsFree i rows)

pub keep-IsFree :
    (hash : Bytes) (rows : List BridgeRecord)
    → keep (λ r. str_eq r.packet_hash hash) rows ≡ []
    → IsFree (λ r. r.packet_hash) hash rows
unfolding keep
keep-IsFree hash [] h = tt
keep-IsFree hash (r ∷ rows) h =
    ground (arith, (str_eq_iff r.packet_hash hash).1, keep-IsFree hash rows)

-- The ids are distinct, and so are the packet hashes.
abbrev pub IsTable : List BridgeRecord → Type 0
IsTable rows = IsUniqueBy (λ r. r.id) rows × IsUniqueBy (λ r. r.packet_hash) rows

-- Whatever comes of a statement, a table with distinct ids and hashes stays one.
abbrev pub KeepsTable : World → World → Type 0
KeepsTable w w' = IsTable w.transfers → IsTable w'.transfers

pub update-IsTable :
    (p : BridgeRecord → Bool) (f : BridgeRecord → BridgeRecord)
    → ((r : BridgeRecord) → (f r).id ≡ r.id)
    → ((r : BridgeRecord) → (f r).packet_hash ≡ r.packet_hash)
    → (rows : List BridgeRecord) → IsTable rows
    → IsTable (update p f rows)
update-IsTable p f ids hashes rows h = (
  update-IsUniqueBy (λ r. r.id) p f ids rows h.0,
  update-IsUniqueBy (λ r. r.packet_hash) p f hashes rows h.1,
)

pub insert_row-IsTable :
    (t : BridgeRecord) (rows : List BridgeRecord)
    → IsFree (λ r. r.packet_hash) t.packet_hash rows
    → IsTable rows
    → IsTable (insert_row t rows)
unfolding insert_row
insert_row-IsTable t rows free h = elim (Bool-cases (any (λ r. r.id == t.id) rows)) [
  | inl there ↦ rw (there, insert_row) h
  | inr absent ↦
      rw (absent, insert_row)
        (
          append-IsUniqueBy (λ r. r.id) t rows (any-IsFree t.id rows absent) h.0,
          append-IsUniqueBy (λ r. r.packet_hash) t rows free h.1,
        )
]
