-- ===== src/Process.antt =====
-- cmd/server/main.go and internal/db/pool.go: the start of the process. The TOML library, pgxpool and the
-- databases are parameters. The signals and the end of the process are the runtime's.
use gno_ibc_relayer_api.Prelude.{
  ◌≡◌, refl, Bool, true, false, ◌&&◌, Option, none, some, List, [], ◌∷◌, if◌then◌else◌, Bool-cases,
  inl, inr,
}
use gno_ibc_relayer_api.Prelude.Strings.{Bytes}
use gno_ibc_relayer_api.Config.{DbConfig, Config, dsn, load}
use gno_ibc_relayer_api.Indexer.Events.{Setup}
use gno_ibc_relayer_api.Server.Router.{addr}

-- What a file holds, whether pgxpool makes a pool of a connection text, and whether the database answers.
pub record Outside : Type 0 where
  pub decode_file : Bytes → Option Config
  pub connects : Bytes → Bool
  pub answers : Bytes → Bool

-- The pools that are open, by their connection texts, the last one first.
abbrev pub Pools : Type 0
Pools = List Bytes

-- The end of `main` by `log.Fatalf`, or the indexer and the server that it starts.
pub data Started : Type 0 where
  no_config no_relayer_db no_bridge_db : Started
  serving : Setup → Bytes → Started

-- `indexer.New`
abbrev pub new_indexer : Config → Setup
new_indexer cfg = record { batch_size = cfg.indexer.batch_size; chains = cfg.channel_chains }

module _ (o : Outside) where
  -- `NewPool`: a pool whose database does not answer is closed again.
  unfoldable pub new_pool : DbConfig → Pools → Bool × Pools
  new_pool cfg pools =
      if o.connects (dsn cfg)
      then (if o.answers (dsn cfg) then (true, dsn cfg ∷ pools) else (false, pools))
      else (false, pools)

  abbrev pub with_bridge_db : Config → Bool × Pools → Started × Pools
  with_bridge_db cfg (true, pools) = (serving (new_indexer cfg) (addr cfg.server), pools)
  with_bridge_db cfg (false, pools) = (no_bridge_db, pools)

  abbrev pub with_relayer_db : Config → Bool × Pools → Started × Pools
  with_relayer_db cfg (true, pools) = with_bridge_db cfg (new_pool cfg.bridge_db pools)
  with_relayer_db cfg (false, pools) = (no_relayer_db, pools)

  abbrev pub with_config : Option Config → Started × Pools
  with_config none = (no_config, [])
  with_config (some cfg) = with_relayer_db cfg (new_pool cfg.relayer_db [])

  -- `main`, up to the serving.
  unfoldable pub start_process : Bytes → Started × Pools
  start_process path = with_config (load o.decode_file path)

  -- Both databases of the configuration answer.
  abbrev pub is_up : DbConfig → Bool
  is_up cfg = o.connects (dsn cfg) && o.answers (dsn cfg)

  new_pool-is_up :
      (cfg : DbConfig) (pools : Pools)
      → new_pool cfg pools ≡ (if is_up cfg then (true, dsn cfg ∷ pools) else (false, pools))
  unfolding new_pool
  new_pool-is_up cfg pools = by_outside (o.connects (dsn cfg)) (o.answers (dsn cfg))
    where
      by_outside :
          (c a : Bool)
          → ◌≡◌ {A = Bool × Pools}
              (if c
                then (if a then (true, dsn cfg ∷ pools) else (false, pools))
                else (false, pools))
              (if c && a then (true, dsn cfg ∷ pools) else (false, pools))
      by_outside true true = refl
      by_outside true false = refl
      by_outside false a = refl

  -- With a configuration whose two databases answer, the process serves at its port and indexes its routes
  -- with both pools open. Otherwise it ends: with no pool open if the relayer's database does not
  -- answer, and with the relayer's pool open if only the other one does not.
  pub start_process-serves :
      (path : Bytes) (cfg : Config)
      → o.decode_file path ≡ some cfg
      → start_process path ≡ (
          if is_up cfg.relayer_db
          then (if is_up cfg.bridge_db
              then (
                serving (new_indexer cfg) (addr cfg.server),
                dsn cfg.bridge_db ∷ dsn cfg.relayer_db ∷ [],
              )
              else (no_bridge_db, dsn cfg.relayer_db ∷ []))
          else (no_relayer_db, []))
  unfolding start_process
  start_process-serves path cfg e = elim (Bool-cases (is_up cfg.relayer_db)) [
    | inl r ↦ elim (Bool-cases (is_up cfg.bridge_db)) [
      | inl b ↦
          rw
            (
              start_process,
              e,
              new_pool-is_up cfg.relayer_db [],
              r,
              new_pool-is_up cfg.bridge_db (dsn cfg.relayer_db ∷ []),
              b,
            )
            refl
      | inr b ↦
          rw
            (
              start_process,
              e,
              new_pool-is_up cfg.relayer_db [],
              r,
              new_pool-is_up cfg.bridge_db (dsn cfg.relayer_db ∷ []),
              b,
            )
            refl
    ]
    | inr r ↦ rw (start_process, e, new_pool-is_up cfg.relayer_db [], r) refl
  ]
