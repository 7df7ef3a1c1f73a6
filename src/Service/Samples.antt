-- ===== src/Service/Samples.antt =====
-- A service with one base directory and an approval that is decided, and the theorems at them.
use aegis_code.Prelude.{
  ◌≡◌, ◌⊎◌, ◌≤◌, refl, ap, ◌∙◌, String, Bool, true, false, List, [], ◌∷◌, ◌++◌, Option, some, none,
  Result, ok, err, Error, key_error, length, if◌then◌else◌, ◌==◌,
}
use aegis_code.Json.{str}
use aegis_code.Json.Dumps.{dumps}
use aegis_code.Config.{default_config}
use aegis_code.Governance.Fence.{Files, components}
use aegis_code.Loop.Termination.{completed}
use aegis_code.Persistence.{
  TaskRow, ApprovalRow, Request, insert_task, get_task, get_approval, insert_approval, set_approval,
  update_approval,
}
use aegis_code.Service.Workspace.{validate_workspace}
use aegis_code.Service.Tasks.{Tables, Run, Service, create_task}
use aegis_code.Service.Tasks.Ends.{started, KeepsRow, Ends, create_task-Ends}
use aegis_code.Service.Resolver.{
  unregistered, waiting, returned, Shared, decide_under_lock, register, decide, signal, wake,
  forget, read,
}
use aegis_code.Service.Resolver.Decided.{SomeYes, Trace, here, and_then, resolver-SomeYes}

abbrev no_links : Files
no_links = record { realpath = λ p. p; exists = λ p. true; islink = λ p. false }

project_valid : validate_workspace no_links (str "/workspace/p") "/workspace" ≡ ok tt
unfolding validate_workspace aegis_code.Governance.Fence.commonpath aegis_code.Prelude.Text.is_abs
project_valid = refl

-- a harness that completes and touches nothing
abbrev idle_run : Run
idle_run description t = (ok completed, t)

abbrev service : Service
service = record {
  config = default_config;
  files = no_links;
  sha256_16 = λ s. s;
  loads = λ s. none;
  harness_factory = λ task_id workspace. ok idle_run;
}

abbrev empty_tables : Tables
empty_tables = record { tasks = []; approvals = []; events = []; steps = [] }

abbrev new_row : TaskRow
new_row = record {
  task_id = "t1";
  workspace_path = "/workspace/p";
  workspace_hash = "/workspace/p";
  task_description = "task";
  state = "RUNNING";
  termination_reason = none;
  step_count = 0;
  created_at = "now";
  updated_at = "now";
}

-- the tables when the run begins
abbrev begun : Tables
begun = started service "now" "t1" "/workspace/p" "task" empty_tables

-- the run leaves the tables as they are
row_stays : KeepsRow service "now" "t1" "/workspace/p" "task" empty_tables
unfolding get_task insert_task
row_stays run is =
    let idle : run ≡ idle_run = cc in
    let f : (get_task "t1" (idle_run "task" begun).1.tasks ≡ ok new_row) = refl in
    (new_row, ap (λ (f : Run). get_task "t1" (f "task" begun).1.tasks) idle ∙ f)

create_task-Ends_example :
    Ends service "now" "t1" "/workspace/p" "task" empty_tables
      (create_task service "now" "t1" "/workspace/p" "task" empty_tables)
create_task-Ends_example =
    create_task-Ends service "now" "t1" "/workspace/p" "task" empty_tables row_stays

abbrev request : Request
request = record {
  task_id = "t1";
  step_index = 0;
  action_snapshot = str "snapshot";
  action_fingerprint = "f1";
  governance_decision = "REQUIRE_APPROVAL";
  triggered_rule_id = "TIER_WRITE";
  reason = "why";
  risk_explanation = "why";
}

abbrev before : Shared
before = record { rows = []; registered = false; event = false; signals = 0; decisions = [] }

abbrev asked : Shared
asked = record {
  rows = insert_approval "now" "a1" request [];
  registered = true;
  event = false;
  signals = 0;
  decisions = [];
}

abbrev agreed : Shared
agreed = decide_under_lock "now" "a1" "a1" true asked

abbrev signalled : Shared
signalled = record agreed { event = true; signals = 0 }

abbrev forgotten : Shared
forgotten = record signalled { registered = false }

abbrev approved_row : ApprovalRow
approved_row = record {
  approval_id = "a1";
  task_id = "t1";
  step_index = 0;
  action_snapshot_json = dumps (str "snapshot");
  action_fingerprint = "f1";
  governance_decision = "REQUIRE_APPROVAL";
  triggered_rule_id = "TIER_WRITE";
  reason = "why";
  risk_explanation = "why";
  state = "APPROVED";
  remember_choice = 0;
  created_at = "now";
  decided_at = some "now";
  decided_by = some "service";
}

approved_found : get_approval "a1" forgotten.rows ≡ ok approved_row
unfolding get_approval update_approval insert_approval set_approval
approved_found = refl

no_row_yet : get_approval "a1" [] ≡ err (key_error "approval not found: a1")
unfolding get_approval
no_row_yet = refl

-- the action is asked for, decided, signalled, and read
agreed_steps : Trace "a1" request unregistered before (returned true) forgotten
agreed_steps =
    and_then
      (and_then
        (and_then
          (and_then
            (and_then (and_then (here unregistered before) (register "now" before))
              (decide "now" "a1" true waiting asked))
            (signal 0 waiting agreed refl))
          (wake signalled refl))
        (forget signalled))
      (read forgotten approved_row approved_found)

resolver-SomeYes_example : SomeYes forgotten
resolver-SomeYes_example =
    resolver-SomeYes "a1" request before forgotten (key_error "approval not found: a1") no_row_yet
      agreed_steps
