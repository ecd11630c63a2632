-- ===== src/Indexer/Effects.antt =====
-- internal/indexer: actions as statements that only advance the bridges.
use gno_ibc_relayer_api.Prelude.{
  ℕ, ◌≡◌, refl, sym, ap, subst, ◌∙◌, Bool, true, false, List, [], ◌∷◌, map, if◌then◌else◌,
}
use gno_ibc_relayer_api.Prelude.Membership.{Bool-apart}
use gno_ibc_relayer_api.Prelude.Strings.{Bytes}
use gno_ibc_relayer_api.Db.Record.{BridgeRecord}
use gno_ibc_relayer_api.Db.World.{
  World, Result, ok, err, crash, M, caught, ◌>>=◌, continue, pure, raise, panic, attempt, query,
  statement, DbError,
}
use gno_ibc_relayer_api.Db.Trees.{
  Tree, ret, stmt, interp, interp_faults, bind_tree, attempt_tree, statement_tree, interp-bind,
  interp-attempt, interp-statement, Sql, select, IsSql, IsSql-bind, IsSql-attempt,
}
use gno_ibc_relayer_api.Db.Advance.{Advances, Advances-refl, Advances-trans, AdvanceRow, find_row}
use gno_ibc_relayer_api.Db.Unique.{IsTable, KeepsTable}

-- The keys of the table: the ids with the packet hashes.
abbrev pub keys_of : List BridgeRecord → List (ℕ × Bytes)
keys_of rows = map (λ r. (r.id, r.packet_hash)) rows

abbrev pub keys : World → List (ℕ × Bytes)
keys w = keys_of w.transfers

-- A statement advances the rows and keeps their ids and hashes distinct. Unless it may insert, it
-- leaves the keys as they are.
pub record Effect (inserts : Bool) (w v : World) : Type 0 where
  pub at : Advances w v
  pub table : KeepsTable w v
  pub kept : inserts ≡ false → keys v ≡ keys w

-- Each statement has such an effect, whatever the world is in which it comes; where there are insertions,
-- as long as the keys are those that the statements before left.
abbrev pub Good : {A : Type 0} → Bool → List (ℕ × Bytes) → Tree A → Type 0
Good b ks (ret r) = Unit
Good b ks (stmt f k e) =
    ((w : World) → (b ≡ true → keys w ≡ ks) → Effect b w (f w) × Good b (keys (f w)) (k w))
    × Good b ks e

-- The action is a tree of such statements, each one of SQL.
pub record Grows {A : Type 0} (inserts : Bool) (m : M A) : Type 0 where
  pub tree : Tree A
  pub runs : (w : World) → interp tree w ≡ m w
  pub single : IsSql tree
  pub good : (ks : List (ℕ × Bytes)) → Good inserts ks tree

pub Effect-refl : (b : Bool) (w v : World) → v.transfers ≡ w.transfers → Effect b w v
Effect-refl b w v e = record {
  at =
      subst (λ rows. (i : ℕ) → AdvanceRow (find_row i w.transfers) (find_row i rows)) (sym e)
        (Advances-refl w);
  table = subst IsTable (sym e);
  kept = λ _. ap keys_of e;
}

pub Good-bind :
    {A B : Type 0} (b : Bool) (t : Tree A) (h : A → Tree B) (ks : List (ℕ × Bytes))
    → Good b ks t
    → ((a : A) (ls : List (ℕ × Bytes)) → Good b ls (h a))
    → Good b ks (bind_tree t h)
unfolding bind_tree
Good-bind b (ret (ok a)) h ks g k = k a ks
Good-bind b (ret (err e)) h ks g k = tt
Good-bind b (ret crash) h ks g k = tt
Good-bind b (stmt f c e) h ks g k = (
  λ w at. ((g.0 w at).0, Good-bind b (c w) h (keys (f w)) (g.0 w at).1 k),
  Good-bind b e h ks g.1 k,
)

pub Good-attempt :
    {A : Type 0} (b : Bool) (t : Tree A) (ks : List (ℕ × Bytes))
    → Good b ks t
    → Good b ks (attempt_tree t)
unfolding attempt_tree
Good-attempt b (ret r) ks g = tt
Good-attempt b (stmt f c e) ks g = (
  λ w at. ((g.0 w at).0, Good-attempt b (c w) (keys (f w)) (g.0 w at).1),
  Good-attempt b e ks g.1,
)

-- Without insertions the keys do not matter.
pub Good-keys :
    {A : Type 0} (t : Tree A) (ks ls : List (ℕ × Bytes)) → Good false ks t → Good false ls t
Good-keys (ret r) ks ls g = tt
Good-keys (stmt f k e) ks ls g =
    ((λ w _. g.0 w (λ h. absurd (Bool-apart false h refl))), Good-keys e ks ls g.1)

pub Effect-trans : (b : Bool) (u v w : World) → Effect b u v → Effect b v w → Effect b u w
Effect-trans b u v w g h = record {
  at = Advances-trans u v w g.at h.at;
  table = λ t. h.table (g.table t);
  kept = λ e. h.kept e ∙ g.kept e;
}

-- Without other statements between, all of them together have such an effect.
Good-Effect :
    {A : Type 0} (b : Bool) (t : Tree A) (w : World) → Good b (keys w) t → Effect b w (interp t w).1
unfolding interp
Good-Effect b (ret r) w g = Effect-refl b w w refl
Good-Effect {A} b (stmt f k e) w g =
    by_faults (λ v. Good-Effect b (k v) (f v)) (λ v. Good-Effect b e v) w.faults
  where
    by_faults :
        ((v : World) → Good b (keys (f v)) (k v) → Effect b (f v) (interp (k v) (f v)).1)
        → ((v : World) → Good b (keys v) e → Effect b v (interp e v).1)
        → (l : List Bool) → Effect b w (interp_faults l f (λ v. interp (k v)) (interp e) w).1
    by_faults good bad [] =
        Effect-trans b w (f w) _ (g.0 w (λ _. refl)).0 (good w (g.0 w (λ _. refl)).1)
    by_faults good bad (true ∷ l) =
        Effect-trans b w (record w { faults = l }) _
          (Effect-refl b w (record w { faults = l }) refl) (bad (record w { faults = l }) g.1)
    by_faults good bad (false ∷ l) =
        let v : World = record w { faults = l } in
        Effect-trans b w v _ (Effect-refl b w v refl)
          (Effect-trans b v (f v) _ (g.0 v (λ _. refl)).0 (good v (g.0 v (λ _. refl)).1))

pub Grows-Effect : {A : Type 0} (b : Bool) (m : M A) → Grows b m → (w : World) → Effect b w (m w).1
Grows-Effect b m g w =
    subst (λ x. Effect b w x.1) (g.runs w) (Good-Effect b g.tree w (g.good (keys w)))

module _ {A : Type 0} {b : Bool} where
  unfoldable pub Grows-pure : (a : A) → Grows b (pure a)
  unfolding interp
  Grows-pure a = record { tree = ret (ok a); runs = λ w. refl; single = tt; good = λ ks. tt }

  pub Grows-raise : (e : DbError) → Grows b (raise {A = A} e)
  unfolding interp
  Grows-raise e = record { tree = ret (err e); runs = λ w. refl; single = tt; good = λ ks. tt }

  pub Grows-panic : Grows b (panic {A = A})
  unfolding interp
  Grows-panic = record { tree = ret crash; runs = λ w. refl; single = tt; good = λ ks. tt }

  unfoldable pub Grows-attempt : (m : M A) → Grows b m → Grows b (attempt m)
  Grows-attempt m g = record {
    tree = attempt_tree g.tree;
    runs = λ w. interp-attempt g.tree w ∙ ap (λ x. (caught x.0, x.1)) (g.runs w);
    single = IsSql-attempt g.tree g.single;
    good = λ ks. Good-attempt b g.tree ks (g.good ks);
  }

  pub Grows-if : (c : Bool) (m n : M A) → Grows b m → Grows b n → Grows b (if c then m else n)
  Grows-if true m n g h = g
  Grows-if false m n g h = h

  unfoldable pub Grows-statement :
      (f : World → A × World)
      → Sql (λ w. (f w).1)
      → ((w : World) → Effect b w (f w).1)
      → Grows b (statement f)
  Grows-statement f sql h = record {
    tree = statement_tree f;
    runs = interp-statement f;
    single = (sql, (λ w. tt), tt);
    good = λ ks. ((λ w at. (h w, tt)), tt);
  }

  unfoldable pub Grows-query : (f : World → A) → Grows b (query f)
  Grows-query f = Grows-statement (λ w. (f w, w)) select (λ w. Effect-refl b w w refl)

module _ {A B : Type 0} where
  pub bind_tree-runs :
      (t : Tree A) (h : A → Tree B) (m : M A) (f : A → M B)
      → ((w : World) → interp t w ≡ m w)
      → ((a : A) (w : World) → interp (h a) w ≡ f a w)
      → (w : World) → interp (bind_tree t h) w ≡ (m >>= f) w
  bind_tree-runs t h m f runs rest w = interp-bind t h w ∙ by_result (interp t w) (m w) (runs w)
    where
      same : (r : Result A) (v : World) → continue r (λ a. interp (h a)) v ≡ continue r f v
      same (ok a) v = rest a v
      same (err e) v = refl
      same crash v = refl

      by_result :
          (x y : Result A × World)
          → x ≡ y
          → continue x.0 (λ a. interp (h a)) x.1 ≡ continue y.0 f y.1
      by_result x y e = same x.0 x.1 ∙ ap (λ z. continue z.0 f z.1) e

  unfoldable pub Grows-bind :
      {b : Bool} (m : M A) (f : A → M B) → Grows b m → ((a : A) → Grows b (f a)) → Grows b (m >>= f)
  Grows-bind {b} m f g h = record {
    tree = bind_tree g.tree (λ a. (h a).tree);
    runs = bind_tree-runs g.tree (λ a. (h a).tree) m f g.runs (λ a. (h a).runs);
    single = IsSql-bind g.tree (λ a. (h a).tree) g.single (λ a. (h a).single);
    good = λ ks. Good-bind b g.tree (λ a. (h a).tree) ks (g.good ks) (λ a. (h a).good);
  }
