-- ===== src/Persistence.antt =====
-- `TaskRepository` and `ApprovalRepository` of aegiscode/persistence/repositories.py over the rows
-- of their tables. The clock and identifiers are arguments; an identifier that `uuid4` makes is
-- taken to be new to the table.
pub mod Updates
use aegis_code.Prelude.{
  ℕ, String, Bool, true, false, List, [], ◌∷◌, ◌++◌, Option, none, some, Result, ok, err, key_error,
  ◌==◌, if◌then◌else◌,
}
use aegis_code.Prelude.Text.{◌+s◌}
use aegis_code.Json.{Json}
use aegis_code.Json.Dumps.{dumps}

pub record TaskRow : Type 0 where
  pub task_id : String
  pub workspace_path : String
  pub workspace_hash : String
  pub task_description : String
  pub state : String
  pub termination_reason : Option String
  pub step_count : ℕ
  pub created_at : String
  pub updated_at : String

pub record ApprovalRow : Type 0 where
  pub approval_id : String
  pub task_id : String
  pub step_index : ℕ
  pub action_snapshot_json : String
  pub action_fingerprint : String
  pub governance_decision : String
  pub triggered_rule_id : String
  pub reason : String
  pub risk_explanation : String
  pub state : String
  pub remember_choice : ℕ
  pub created_at : String
  pub decided_at : Option String
  pub decided_by : Option String

-- TaskRepository.insert, with the identifier that it returns
unfoldable pub insert_task :
    String → String → String → String → String → List TaskRow → List TaskRow
insert_task now task_id workspace_path workspace_hash task_description rows =
    rows
    ++ record {
      task_id = task_id;
      workspace_path = workspace_path;
      workspace_hash = workspace_hash;
      task_description = task_description;
      state = "RUNNING";
      termination_reason = none;
      step_count = 0;
      created_at = now;
      updated_at = now;
    }
      ∷ []

-- TaskRepository.get
unfoldable pub get_task : String → List TaskRow → Result TaskRow
get_task task_id [] = err (key_error ("task not found: " +s task_id))
get_task task_id (r ∷ rs) = if r.task_id == task_id then ok r else get_task task_id rs

-- what `SET` writes; without a count the count stays
unfoldable pub set_task : String → String → Option String → Option ℕ → TaskRow → TaskRow
set_task now state reason none r = record r {
  state = state;
  termination_reason = reason;
  updated_at = now;
}
set_task now state reason (some step_count) r = record r {
  state = state;
  termination_reason = reason;
  step_count = step_count;
  updated_at = now;
}

-- TaskRepository.update_state
unfoldable pub update_task :
    String → String → String → Option String → Option ℕ → List TaskRow → List TaskRow
update_task now task_id state reason count [] = []
update_task now task_id state reason count (r ∷ rs) =
    let rest = update_task now task_id state reason count rs in
    if r.task_id == task_id then set_task now state reason count r ∷ rest else r ∷ rest

-- the arguments of ApprovalRepository.insert that come from the action and its verdict
pub record Request : Type 0 where
  pub task_id : String
  pub step_index : ℕ
  pub action_snapshot : Json
  pub action_fingerprint : String
  pub governance_decision : String
  pub triggered_rule_id : String
  pub reason : String
  pub risk_explanation : String

-- ApprovalRepository.insert, with the identifier given or made
unfoldable pub insert_approval : String → String → Request → List ApprovalRow → List ApprovalRow
insert_approval now approval_id q rows =
    rows
    ++ record {
      approval_id = approval_id;
      task_id = q.task_id;
      step_index = q.step_index;
      action_snapshot_json = dumps q.action_snapshot;
      action_fingerprint = q.action_fingerprint;
      governance_decision = q.governance_decision;
      triggered_rule_id = q.triggered_rule_id;
      reason = q.reason;
      risk_explanation = q.risk_explanation;
      state = "PENDING";
      remember_choice = 0;
      created_at = now;
      decided_at = none;
      decided_by = none;
    }
      ∷ []

-- ApprovalRepository.get
unfoldable pub get_approval : String → List ApprovalRow → Result ApprovalRow
get_approval approval_id [] = err (key_error ("approval not found: " +s approval_id))
get_approval approval_id (r ∷ rs) =
    if r.approval_id == approval_id then ok r else get_approval approval_id rs

unfoldable pub set_approval : String → String → String → ApprovalRow → ApprovalRow
set_approval now state decided_by r = record r {
  state = state;
  decided_at = some now;
  decided_by = some decided_by;
}

-- ApprovalRepository.update_state
unfoldable pub update_approval :
    String → String → String → String → List ApprovalRow → List ApprovalRow
update_approval now approval_id state decided_by [] = []
update_approval now approval_id state decided_by (r ∷ rs) =
    let rest = update_approval now approval_id state decided_by rs in
    if r.approval_id == approval_id then set_approval now state decided_by r ∷ rest else r ∷ rest
