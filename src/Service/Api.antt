-- ===== src/Service/Api.antt =====
-- The routes of aegiscode/service/api.py over the service in its synchronous mode, and
-- aegiscode/service/demo_mode.py. The copy of the sample project and its removal are parameters, and
-- so is whether AEGIS_DEMO_MODE is "1". FastAPI's reading of requests and the files of the panel are
-- left out.
pub mod Started
mod Samples
use aegis_code.Prelude.{
  ◌≡◌, ℕ, String, Bool, true, false, ◌&&◌, not, List, [], ◌∷◌, Option, none, some, map, Result, ok,
  err, message, value_error, ◌==◌, if◌then◌else◌,
}
use aegis_code.Prelude.Text.{◌+s◌, is_empty, mem_text}
use aegis_code.Json.{str}
use aegis_code.Audit.Chain.{Row}
use aegis_code.Governance.Dispatcher.{root_or}
use aegis_code.Persistence.{TaskRow, ApprovalRow, get_task, update_approval}
use aegis_code.Security.{redact}
use aegis_code.Service.Workspace.{validate_workspace}
use aegis_code.Service.Tasks.{Tables, Service, create_task}
use aegis_code.Service.Resolver.{decided_state}
use aegis_code.Service.Readers.{list_since, list_for_task, cancel, Audit, get_audit}
use aegis_code.Demo.Registry.{Scenario, list_scenarios}

-- what a route answers: a value with 200, or an error
pub data Reply {ℓ} (A : Type ℓ) : Type ℓ where
  reply : A → Reply A
  http_error : ℕ → String → Reply A

-- the service's tables and cancellation flags, and the directories with copies of the sample
pub record Host : Type 0 where
  pub tables : Tables
  pub cancel_flags : List (String × Bool)
  pub copies : List String

-- _handle_unexpected
abbrev pub unexpected {ℓ} : {A : Type ℓ} → Reply A
unexpected = http_error 500 "internal error"

-- validate_demo_request
unfoldable pub validate_demo_request : Bool → String → Result (Unit {0})
validate_demo_request demo workspace =
    if demo && not (workspace == "demo")
    then err
        (value_error "In demo mode, workspace must be 'demo' (arbitrary paths are not permitted)")
    else ok tt

-- the row of a task, or the error 404
pub with_task {ℓ} : {A : Type ℓ} → String → Host → (TaskRow → A) → Reply A
unfolding get_task
with_task task_id host f = elim (get_task task_id host.tables.tasks) [
  | err e ↦ http_error 404 ("Task not found: " +s task_id)
  | ok row ↦ reply (f row)
]

-- GET /tasks/{task_id}
pub get_task_route : String → Host → Reply TaskRow
unfolding with_task
get_task_route task_id host = with_task task_id host (λ row. row)

-- GET /tasks/{task_id}/events: json.dumps of the events, redacted, and read again by json.loads
pub get_events_route :
    {A : Type 0} → (List (ℕ × Row) → String) → (String → A) → String → ℕ → Host → Reply A
unfolding with_task redact
get_events_route dumps_events loads task_id since host = with_task task_id host (λ row.
    loads (
      redact (some row.workspace_path)
        (dumps_events (list_since task_id since host.tables.events))))

-- GET /tasks/{task_id}/approvals
pub list_approvals_route : String → Host → Reply (List ApprovalRow)
unfolding with_task
list_approvals_route task_id host =
    with_task task_id host (λ row. list_for_task task_id host.tables.approvals)

-- GET /tasks/{task_id}/audit
pub get_audit_route : (String → String) → String → Host → Reply Audit
unfolding with_task
get_audit_route sha256 task_id host =
    with_task task_id host (λ row. get_audit sha256 task_id host.tables.events)

-- POST /approvals/{approval_id}/decision
pub decide_route : String → String → Bool → Host → Reply String × Host
unfolding update_approval
decide_route now approval_id approved host = (
  reply "ok",
  record host {
    tables = record host.tables {
      approvals =
          update_approval now approval_id (decided_state approved) "service" host.tables.approvals;
    };
  },
)

-- POST /tasks/{task_id}/cancel
pub cancel_route : String → Host → Reply String × Host
unfolding cancel
cancel_route task_id host =
    (reply "ok", record host { cancel_flags = cancel task_id host.cancel_flags })

-- GET /healthz
pub healthz : Bool → String
healthz demo = if demo then "demo" else "standard"

-- GET /demos: the identifier, the texts and whether a person is asked
pub record DemoEntry : Type 0 where
  pub id : String
  pub title : String
  pub description : String
  pub learning_objective : String
  pub interactive_approval : Bool

abbrev demo_entry : Scenario → DemoEntry
demo_entry s = record {
  id = s.id;
  title = s.title;
  description = s.description;
  learning_objective = s.learning_objective;
  interactive_approval = s.interactive_approval;
}

pub list_demos : List DemoEntry
list_demos = map demo_entry list_scenarios

module _ (sv : Service) (demo : Bool) (copy : List String → Result String × List String)
    (rmtree : String → List String → List String) where
  -- cleanup_demo_workspace
  pub cleanup_demo_workspace : String → List String → List String
  unfolding mem_text
  cleanup_demo_workspace path copies =
      if not (is_empty path) && mem_text path copies then rmtree path copies else copies

  -- the `if` behind WorkspaceNotAllowedError
  cleaned : Option String → List String → List String
  unfolding cleanup_demo_workspace
  cleaned none copies = copies
  cleaned (some demo_tmp) copies = cleanup_demo_workspace demo_tmp copies

  -- the `try` about create_task. WorkspaceNotAllowedError is what the check of the workspace raises
  -- there; the first argument is what that check says.
  pub answer :
      String
      → Option String
      → Result (Unit {0})
      → Result String × Tables
      → Host
      → Reply String × Host
  unfolding cleaned
  answer task_id demo_tmp (err e) (r, t) host = (
    http_error 400 (message e),
    record host { tables = t; copies = cleaned demo_tmp host.copies },
  )
  answer task_id demo_tmp (ok _) (ok id, t) host =
      (reply id, record host { tables = t; cancel_flags = (task_id, false) ∷ host.cancel_flags })
  answer task_id demo_tmp (ok _) (err e, t) host =
      (unexpected, record host { tables = t; cancel_flags = (task_id, false) ∷ host.cancel_flags })

  -- create_task in the workspace that is used
  pub submit : String → String → Option String → String → String → Host → Reply String × Host
  unfolding answer
  submit now task_id demo_tmp workspace description host =
      answer task_id demo_tmp
        (validate_workspace sv.files (str workspace)
          (root_or sv.config.workspace.allowed_base sv.config.workspace.root))
        (create_task sv now task_id workspace description host.tables) host

  -- create_demo_workspace, and the task in the copy
  pub submit_copy :
      String → String → String → Result String × List String → Host → Reply String × Host
  unfolding submit
  submit_copy now task_id description (err e, copies) host =
      (unexpected, record host { copies = copies })
  submit_copy now task_id description (ok demo_tmp, copies) host =
      submit now task_id (some demo_tmp) demo_tmp description (record host { copies = copies })

  pub post_checked :
      String → String → String → String → Result (Unit {0}) → Host → Reply String × Host
  unfolding submit submit_copy
  post_checked now task_id workspace description (err e) host = (http_error 400 (message e), host)
  post_checked now task_id workspace description (ok _) host =
      if demo && workspace == "demo"
      then submit_copy now task_id description (copy host.copies) host
      else submit now task_id none workspace description host

  -- POST /tasks, with the time and the new identifier
  pub post_tasks : String → String → String → String → Host → Reply String × Host
  unfolding post_checked
  post_tasks now task_id workspace description host =
      post_checked now task_id workspace description (validate_demo_request demo workspace) host
