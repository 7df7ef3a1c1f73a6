-- ===== src/Service/Api/Samples.antt =====
-- A host in demo mode whose copies lie in the allowed base, and its routes.
use aegis_code.Prelude.{◌≡◌, refl, String, true, false, List, [], ◌∷◌, none, Result, ok}
use aegis_code.Config.{default_config}
use aegis_code.Governance.Fence.{Files}
use aegis_code.Persistence.{get_task}
use aegis_code.Loop.Termination.{completed}
use aegis_code.Service.Tasks.{Run, Service}
use aegis_code.Service.Api.{
  Host, http_error, validate_demo_request, post_tasks, post_checked, get_task_route,
}
use aegis_code.Service.Api.Started.{IsGuarded, post_tasks-IsGuarded}

abbrev no_links : Files
no_links = record { realpath = λ p. p; exists = λ p. true; islink = λ p. false }

abbrev idle_run : Run
idle_run description t = (ok completed, t)

abbrev service : Service
service = record {
  config = default_config;
  files = no_links;
  sha256_16 = λ s. s;
  loads = λ s. none;
  harness_factory = λ task_id workspace. ok idle_run;
}

abbrev host : Host
host = record {
  tables = record { tasks = []; approvals = []; events = []; steps = [] };
  cancel_flags = [];
  copies = [];
}

abbrev copied : List String → Result String × List String
copied copies = (ok "/workspace/demo1", "/workspace/demo1" ∷ copies)

abbrev removed : String → List String → List String
removed path copies = []

post_tasks-IsGuarded_example :
    IsGuarded service true copied removed host "demo" "now" "t1" "task"
      (post_tasks service true copied removed "now" "t1" "demo" "task" host).1
post_tasks-IsGuarded_example =
    post_tasks-IsGuarded service true copied removed host "demo" "now" "t1" "task"

refused : (post_tasks service true copied removed "now" "t1" "/etc" "task" host).1 ≡ host
unfolding post_tasks post_checked validate_demo_request
refused = refl

absent : get_task_route "t1" host ≡ http_error 404 "Task not found: t1"
unfolding get_task_route get_task
absent = refl
