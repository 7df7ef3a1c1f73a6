-- ===== src/Demo/Manager/Samples.antt =====
-- A site with one run that has ended, on which the manager of aegiscode/demo/service.py is called.
use aegis_code.Prelude.{◌≡◌, refl, String, List, [], ◌∷◌, Option, none, some, Result, ok}
use aegis_code.Json.{Fields}
use aegis_code.Llm.{scripted}
use aegis_code.Service.Tasks.{Tables}
use aegis_code.Prelude.Text.{mem_text}
use aegis_code.Persistence.{get_task}
use aegis_code.Demo.Registry.{get_scenario}
use aegis_code.Demo.Manager.{Site, is_done, start_run, get_run}
use aegis_code.Demo.Manager.Calls.{Removes, calls-Removes}

abbrev unread : String → Option Fields
unread text = none

-- a site with one run, whose task has ended
abbrev site : Site
site = record {
  ws_to_scenario = ("/d/w1", "dangerous-action-denial") ∷ [];
  run_meta = ("t1", record { scenario_id = "dangerous-action-denial"; workspace = "/d/w1" }) ∷ [];
  ws_llms = ("/d/w1", scripted []) ∷ [];
  dirs = "/d/w1" ∷ [];
  removed = [];
  tables = record {
    tasks =
        record {
          task_id = "t1";
          workspace_path = "/d/w1";
          workspace_hash = "0";
          task_description = "";
          state = "COMPLETED";
          termination_reason = some "COMPLETED";
          step_count = 0;
          created_at = "1";
          updated_at = "2";
        }
        ∷ [];
    approvals = [];
    events = [];
    steps = [];
  };
}

abbrev remove_all : String → List String → List String
remove_all path dirs = []

abbrev created : String → String → Tables → Result String × Tables
created workspace description tables = (ok "t2", tables)

calls-Removes_example :
    Removes site (start_run remove_all created (ok tt) "feedback-driven-repair" "/d/w2" site).1
    × Removes site (get_run remove_all unread "t1" site).1
calls-Removes_example =
    calls-Removes remove_all unread created (ok tt) "feedback-driven-repair" "/d/w2" "t1" site

-- the start of a run sweeps what the ended one left
swept :
    (start_run remove_all created (ok tt) "feedback-driven-repair" "/d/w2" site).1.removed
    ≡ "/d/w1" ∷ []
unfolding start_run get_scenario mem_text get_task
swept = refl

-- a look at the ended run removes its workspace
looked_up : (get_run remove_all unread "t1" site).1.removed ≡ "/d/w1" ∷ []
unfolding get_run get_scenario mem_text get_task is_done
looked_up = refl

started : (start_run remove_all created (ok tt) "feedback-driven-repair" "/d/w2" site).0 ≡ ok "t2"
unfolding start_run get_scenario
started = refl
