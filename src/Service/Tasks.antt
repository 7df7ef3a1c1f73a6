-- ===== src/Service/Tasks.antt =====
-- `ApplicationService` of aegiscode/service/app_service.py in its synchronous mode: a task's life
-- from the check of its workspace to the record of its end. What a harness does to the tables is
-- up to the factory, a parameter; so is what it sees of the task's cancellation flag.
pub mod Ends
use aegis_code.Prelude.{
  ℕ, String, Bool, true, false, List, [], ◌∷◌, ◌++◌, length, Option, none, some, Result, ok, err,
  if◌then◌else◌,
}
use aegis_code.Json.{Json, str, Fields}
use aegis_code.Config.{AegisConfig}
use aegis_code.Governance.Fence.{Files}
use aegis_code.Governance.Dispatcher.{root_or}
use aegis_code.Loop.Termination.{Reason, completed, cancelled, internal_error, reason_text}
use aegis_code.Audit.Chain.{Row}
use aegis_code.Persistence.{TaskRow, ApprovalRow, insert_task, get_task, update_task}
use aegis_code.Service.Projection.{StepRow, project_steps}
use aegis_code.Service.Workspace.{validate_workspace}

-- the tables of the database
pub record Tables : Type 0 where
  pub tasks : List TaskRow
  pub approvals : List ApprovalRow
  pub events : List Row
  pub steps : List StepRow

-- _termination_to_state
abbrev pub termination_to_state : Reason → String
termination_to_state completed = "COMPLETED"
termination_to_state cancelled = "CANCELLED"
termination_to_state _ = "FAILED"

-- a run of a harness, which may raise
abbrev pub Run : Type 0
Run = String → Tables → Result Reason × Tables

-- the `try` about the run
abbrev pub reason_of : Result Reason → Reason
reason_of (ok reason) = reason
reason_of (err e) = internal_error

-- the identifiers, the clock and the readers of a service
pub record Service : Type 0 where
  pub config : AegisConfig
  pub files : Files
  pub sha256_16 : String → String
  pub loads : String → Option Fields
  pub harness_factory : String → String → Result Run

-- the end of `_run_inline`, with the projection of the steps
pub record_end : Service → String → String → Result Reason × Tables → Tables
record_end sv now task_id (outcome, t) =
    let reason = reason_of outcome in
    let rows = project_steps sv.loads task_id t.events in
    record t {
      tasks =
          update_task now task_id (termination_to_state reason) (some (reason_text reason))
            (some (length rows)) t.tasks;
      steps = t.steps ++ rows;
    }

-- _run_inline; an error of the factory is raised before anything runs
pub run_inline :
    Service → String → String → String → Result Run → Tables → Result (Unit {0}) × Tables
run_inline sv now task_id description (err e) t = (err e, t)
run_inline sv now task_id description (ok run) t =
    (ok tt, record_end sv now task_id (run description t))

-- what comes after a step that may raise
then_return : String → Result (Unit {0}) × Tables → Result String × Tables
then_return task_id (ok _, t) = (ok task_id, t)
then_return task_id (err e, t) = (err e, t)

-- past the check of the workspace: the row is inserted, and the task runs
pub accepted :
    Service
    → String
    → String
    → String
    → String
    → Result (Unit {0})
    → Tables
    → Result String × Tables
unfolding then_return
accepted sv now task_id workspace description (err e) t = (err e, t)
accepted sv now task_id workspace description (ok _) t = then_return task_id (
    run_inline sv now task_id description (sv.harness_factory task_id workspace) (record t {
      tasks = insert_task now task_id workspace (sv.sha256_16 workspace) description t.tasks;
    }))

-- create_task, with sync=True
pub create_task : Service → String → String → String → String → Tables → Result String × Tables
create_task sv now task_id workspace description t =
    let base = root_or sv.config.workspace.allowed_base sv.config.workspace.root in
    accepted sv now task_id workspace description (validate_workspace sv.files (str workspace) base)
      t
