-- ===== src/Setup/Tests.antt =====
-- The theorems about cmd/setup-trigger/main.go at concrete catalogs.
use gno_ibc_relayer_api.Prelude.{◌≡◌, refl, true, false, none, some, [], ◌∷◌, All, any}
use gno_ibc_relayer_api.Prelude.Strings.{codes, str_eq}
use gno_ibc_relayer_api.Setup.Catalog.{
  Catalog, statement, put, put_function, has_trigger, source, add_trigger,
}
use gno_ibc_relayer_api.Setup.Triggers.{
  triggers, setup_triggers, set_up_all, set_up, create_function, trigger_exists, create_trigger,
  function_text, notify_body,
}
use gno_ibc_relayer_api.Setup.Rounds.{calm, IsReady, CanSetUp}
use gno_ibc_relayer_api.Setup.Recovery.{setup_triggers-again}
use gno_ibc_relayer_api.Setup.Complete.{setup_triggers-IsReady, setup_triggers-completes}

-- The relayer's tables, the trigger of `queue` and an old text of its function.
abbrev half_done : Catalog
half_done = record {
  tables = codes "queue" ∷ codes "done" ∷ codes "failed" ∷ [];
  functions = (codes "notify_queue_insert", codes "RETURN NEW;") ∷ [];
  others = codes "notify_all" ∷ [];
  triggers =
      record {
        name = codes "queue_insert_trigger";
        table = codes "queue";
        function = codes "notify_queue_insert";
      }
      ∷ [];
  faults = [];
}

-- The function of `done` is put, and its trigger is not created.
abbrev interrupted : Catalog
interrupted = record half_done { faults = false ∷ false ∷ false ∷ false ∷ true ∷ [] }

can_set_up : All (λ t. CanSetUp t half_done) triggers
unfolding any str_eq
can_set_up = ((refl, refl), ((refl, refl), ((refl, refl), tt)))

-- A function of the name of the first one returns something else, and the program ends there.
refused : (setup_triggers (record half_done { others = codes "notify_queue_insert" ∷ [] })).0 ≡ none
unfolding setup_triggers set_up_all set_up create_function put_function statement any str_eq
refused = refl

-- A function with a filter sends its notification where the filter holds.
filtered :
    function_text (codes "done_insert") (codes "NEW.id > 3")
    ≡ codes
        "\n\tBEGIN\n\t\tIF NEW.id > 3 THEN\n\t\tPERFORM pg_notify('done_insert', NEW.id::text);\n\tEND IF;\n\t\tRETURN NEW;\n\tEND;\n\t"
unfolding function_text notify_body
filtered = refl

setup_triggers-again_example :
    setup_triggers (calm (setup_triggers interrupted).1) ≡ setup_triggers half_done
setup_triggers-again_example = setup_triggers-again interrupted

setup_triggers-completes_example : (setup_triggers half_done).0 ≡ some tt
setup_triggers-completes_example = setup_triggers-completes half_done can_set_up

completes_half_done : (setup_triggers half_done).0 ≡ some tt
unfolding setup_triggers set_up_all set_up create_function trigger_exists create_trigger statement
    put put_function has_trigger source add_trigger any str_eq
completes_half_done = refl

setup_triggers-IsReady_example : All (λ t. IsReady t (setup_triggers half_done).1) triggers
setup_triggers-IsReady_example = setup_triggers-IsReady half_done completes_half_done
