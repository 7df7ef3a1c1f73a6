-- ===== src/Tools.antt =====
-- aegiscode/tools/result.py, base.py and registry.py. `W` is the world that tools act on.
pub mod Registry
pub mod Os
pub mod Table
pub mod Files
pub mod Commands
use aegis_code.Prelude.{
  ℕ, String, Bool, true, false, List, [], ◌∷◌, Option, none, some, Result, ◌==◌, if◌then◌else◌,
}
use aegis_code.Prelude.Int.{ℤ}
use aegis_code.Json.{Fields, end}

pub data Status : Type 0 where
  success failure denied error : Status

abbrev pub status_text : Status → String
status_text success = "success"
status_text failure = "failure"
status_text denied = "denied"
status_text error = "error"

pub data Category : Type 0 where
  test_failure tool_error policy_denied approval_rejected : Category
  invalid_action timeout no_progress internal_error : Category

abbrev pub category_text : Category → String
category_text test_failure = "TEST_FAILURE"
category_text tool_error = "TOOL_ERROR"
category_text policy_denied = "POLICY_DENIED"
category_text approval_rejected = "APPROVAL_REJECTED"
category_text invalid_action = "INVALID_ACTION"
category_text timeout = "TIMEOUT"
category_text no_progress = "NO_PROGRESS"
category_text internal_error = "INTERNAL_ERROR"

pub record ToolResult : Type 0 where
  pub tool : String
  pub status : Status
  pub summary : String
  pub category : Option Category
  pub detail_for_llm : String
  pub exit_code : Option ℤ
  pub duration_ms : ℕ
  pub truncated : Bool
  pub artifacts : Fields

-- ToolResult(tool=…, status=…, summary=…, category=…), the rest by default
abbrev pub result : String → Status → Option Category → String → ToolResult
result tool status category summary = record {
  tool = tool;
  status = status;
  summary = summary;
  category = category;
  detail_for_llm = "";
  exit_code = none;
  duration_ms = 0;
  truncated = false;
  artifacts = end;
}

-- the task's context; the workspace may be missing. Every context that the program makes has a
-- `snapshot` that does nothing.
pub record Ctx : Type 0 where
  pub task_id : String
  pub workspace_root : Option String
  pub resolve : String → String
  pub write_max_bytes : ℕ

-- A tool may raise; what it did to the world before stays done.
pub record Tool (W : Type 0) : Type 0 where
  pub name : String
  pub description : String
  pub parameters : Fields
  pub run : Fields → Ctx → W → Result ToolResult × W

-- `_tools`, in the order of registration
abbrev pub Registry : Type 0 → Type 0
Registry W = List (String × Tool W)

module _ {W : Type 0} where
  -- registry.get(name)
  unfoldable pub get_tool : String → Registry W → Option (Tool W)
  get_tool k [] = none
  get_tool k ((j, t) ∷ ts) = if j == k then some t else get_tool k ts

  put_tool : String → Tool W → Registry W → Registry W
  put_tool k t [] = (k, t) ∷ []
  put_tool k t ((j, u) ∷ ts) = if j == k then (j, t) ∷ ts else (j, u) ∷ put_tool k t ts

  -- registry.register(tool)
  unfoldable pub register : Tool W → Registry W → Registry W
  unfolding put_tool
  register t ts = put_tool t.name t ts

  -- registry.names()
  unfoldable pub names : Registry W → List String
  names [] = []
  names ((k, _) ∷ ts) = k ∷ names ts
