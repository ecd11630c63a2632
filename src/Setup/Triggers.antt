-- ===== src/Setup/Triggers.antt =====
-- cmd/setup-trigger/main.go: the triggers, the SQL and the loop of `main`.
-- The parts of a function's text that PL/pgSQL reads are kept; a configuration that does not load
-- and a pool that cannot be made end the program before the loop.
use gno_ibc_relayer_api.Prelude.{Bool, some, List, [], ◌∷◌, ◌++◌, if◌then◌else◌}
use gno_ibc_relayer_api.Prelude.Strings.{Bytes, codes, is_empty}
use gno_ibc_relayer_api.Setup.Catalog.{
  Run, ◌>>=◌, ◌>>◌, pure, statement, put_function, has_trigger, add_trigger,
}

pub record TriggerDef : Type 0 where
  pub fn_name : Bytes
  pub tg_name : Bytes
  pub table : Bytes
  pub channel : Bytes
  pub filter : Bytes

abbrev pub triggers : List TriggerDef
triggers =
    record {
      fn_name = codes "notify_queue_insert";
      tg_name = codes "queue_insert_trigger";
      table = codes "queue";
      channel = codes "queue_insert";
      filter = [];
    }
    ∷ record {
      fn_name = codes "notify_done_insert";
      tg_name = codes "done_insert_trigger";
      table = codes "done";
      channel = codes "done_insert";
      filter =
          codes
            "NEW.item::text LIKE '%packet_recv%' OR NEW.item::text LIKE '%write_ack%' OR NEW.item::text LIKE '%packet_timeout%'";
    }
    ∷ record {
      fn_name = codes "notify_failed_insert";
      tg_name = codes "failed_insert_trigger";
      table = codes "failed";
      channel = codes "failed_insert";
      filter = [];
    }
    ∷ []

-- `body` of `createFnSQL`, and the text between its `$$`.
unfoldable pub notify_body : Bytes → Bytes → Bytes
notify_body channel filter =
    let notify : Bytes = codes "PERFORM pg_notify('" ++ (channel ++ codes "', NEW.id::text);") in
    if is_empty filter
    then notify
    else codes "IF " ++ (filter ++ (codes " THEN\n\t\t" ++ (notify ++ codes "\n\tEND IF;")))

unfoldable pub function_text : Bytes → Bytes → Bytes
unfolding notify_body
function_text channel filter =
    codes "\n\tBEGIN\n\t\t" ++ (notify_body channel filter ++ codes "\n\t\tRETURN NEW;\n\tEND;\n\t")

-- Executing `createFnSQL`.
unfoldable pub create_function : TriggerDef → Run (Unit {0})
unfolding statement put_function
create_function t = statement (put_function t.fn_name (function_text t.channel t.filter))

-- The query of `checkTgSQL`.
unfoldable pub trigger_exists : TriggerDef → Run Bool
unfolding statement has_trigger
trigger_exists t = statement λ c. (some (has_trigger t.table t.tg_name c.triggers), c)

-- Executing `createTgSQL`.
unfoldable pub create_trigger : TriggerDef → Run (Unit {0})
unfolding statement add_trigger
create_trigger t =
    statement (add_trigger (record { name = t.tg_name; table = t.table; function = t.fn_name }))

-- A round of the loop.
unfoldable pub set_up : TriggerDef → Run (Unit {0})
unfolding create_function trigger_exists create_trigger
set_up t = do
  create_function t
  exists ← trigger_exists t
  if exists then pure tt else create_trigger t

unfoldable pub set_up_all : List TriggerDef → Run (Unit {0})
unfolding set_up
set_up_all [] = pure tt
set_up_all (t ∷ ts) = do set_up t; set_up_all ts

-- `main` from the loop on.
unfoldable pub setup_triggers : Run (Unit {0})
unfolding set_up_all
setup_triggers = set_up_all triggers
