-- ===== src/Governance/Dispatcher.antt =====
-- `Dispatcher` of aegiscode/governance/dispatcher.py.
pub mod Gates
pub mod Runs
pub mod Approved
use aegis_code.Prelude.{
  String, Bool, true, false, not, ◌&&◌, ◌||◌, List, [], ◌∷◌, Option, none, some, Result, ok, err,
  message, superseded_error, ◌>>=◌, ◌==◌, if◌then◌else◌,
}
use aegis_code.Prelude.Text.{◌+s◌, is_empty, mem_text}
use aegis_code.Json.{Json, null, bool, str, Fields, end, field, get, get_or, has_key, is_falsy}
use aegis_code.Tools.{
  Status, success, failure, denied, error, Category, policy_denied, invalid_action, internal_error,
  ToolResult, result, Ctx, Tool, Registry, get_tool,
}
use aegis_code.Governance.Decision.{
  Decision, deny, require_approval, is_deny, is_require_approval, Verdict, Action, PolicyEngine,
  evaluate,
}
use aegis_code.Governance.Fence.{Files, PathVerdict, check_path}
use aegis_code.Governance.CommandFence.{fence_command}
use aegis_code.Governance.Approval.{validate_resume}

-- `pc` of the source is the root and the patterns; `files` is what the file system answers in a
-- world.
pub record Dispatcher (W : Type 0) : Type 0 where
  pub registry : Registry W
  pub engine : PolicyEngine
  pub workspace_root : String
  pub sensitive_patterns : List String
  pub files : W → Files

abbrev pub file_tools : List String
file_tools = "read_file" ∷ "write_file" ∷ "list_files" ∷ "search_text" ∷ []

-- getattr(ctx, "workspace_root", None) or self.pc.workspace_root
abbrev pub root_or : Option String → String → String
root_or none fallback = fallback
root_or (some root) fallback = if is_empty root then fallback else root

verdict : Decision → String → String → Verdict
verdict decision rule_id reason = record { decision = decision; rule_id = rule_id; reason = reason }

abbrev pub Dispatched : Type 0 → Type 0
Dispatched W = Result (Verdict × Option ToolResult) × W

abbrev pub Executed : Type 0 → Type 0
Executed W = Result ToolResult × W

-- `except SupersededError`; `validate_resume` raises no other error
superseded_result : String → String → ToolResult
superseded_result tool why =
    record (result tool denied (some policy_denied) ("SUPERSEDED: " +s why)) {
      artifacts = field "superseded" (bool true) end;
    }

module _ {W : Type 0} where
  -- a refusal by the rule named, with the world left alone
  refuse : String → String → Status → Category → String → String → W → Dispatched W
  unfolding verdict
  refuse tool rule_id status category reason summary w =
      (ok (verdict deny rule_id reason, some (result tool status (some category) summary)), w)

  -- what a tool's run makes of the verdict that let it run
  unfoldable pub finish_run : Verdict → Executed W → Dispatched W
  finish_run v (ok r, w) = (ok (v, some r), w)
  finish_run v (err e, w) = (err e, w)

  -- behind the policy engine
  by_verdict : Tool W → Action → Ctx → W → Verdict → Dispatched W
  by_verdict tool action ctx w v =
      if is_deny v.decision
      then (ok (v, some (result action.tool denied (some policy_denied) v.reason)), w)
      else if is_require_approval v.decision
      then (ok (v, none), w)
      else finish_run v (tool.run action.arguments ctx w)

  -- the `try` about the policy engine
  by_engine : Tool W → Action → Ctx → W → Result Verdict → Dispatched W
  unfolding refuse
  by_engine tool action ctx w (err e) =
      refuse action.tool "INTERNAL_ERROR" error internal_error (message e)
        ("policy engine error: " +s message e) w
  by_engine tool action ctx w (ok v) = by_verdict tool action ctx w v

  -- behind a fence of `dispatch`: its error, its refusal, or what comes next
  fenced : String → String → W → Result (Option String) → Dispatched W → Dispatched W
  unfolding refuse
  fenced tool rule_id w (err e) next = (err e, w)
  fenced tool rule_id w (ok (some why)) next = refuse tool rule_id denied policy_denied why why w
  fenced tool rule_id w (ok none) next = next

  -- behind a fence of `execute_approved`
  fenced_run : String → W → Result (Option String) → Executed W → Executed W
  fenced_run tool w (err e) next = (err e, w)
  fenced_run tool w (ok (some why)) next = (ok (result tool denied (some policy_denied) why), w)
  fenced_run tool w (ok none) next = next

module _ {W : Type 0} (d : Dispatcher W) where
  -- the path fence of the file tools: a reason to refuse, or none
  unfoldable pub path_fence_reason : Action → Ctx → W → Result (Option String)
  path_fence_reason action ctx w =
      if mem_text action.tool file_tools && has_key "path" action.arguments
      then (check_path (d.files w) (get_or "path" null action.arguments)
            (root_or ctx.workspace_root d.workspace_root) d.sensitive_patterns
          >>= λ pv. ok (if pv.allowed then none else some pv.reason))
      else ok none

  -- _run_command_fence_reason
  unfoldable pub run_command_fence_reason : Action → Ctx → W → Result (Option String)
  run_command_fence_reason action ctx w =
      let command = get_or "command" (str "") action.arguments in
      if not (action.tool == "run_command")
      then ok none
      else if is_falsy command
      then ok none
      else fence_command (d.files w) command (root_or ctx.workspace_root d.workspace_root)
          d.sensitive_patterns

  dispatch_with : Option (Tool W) → Action → Ctx → W → Dispatched W
  unfolding refuse
  dispatch_with none action ctx w =
      refuse action.tool "UNKNOWN_TOOL" error invalid_action "unknown tool"
        ("unknown tool " +s action.tool) w
  dispatch_with (some tool) action ctx w =
      fenced action.tool "PATH_FENCE" w (path_fence_reason action ctx w) (
        fenced action.tool "CMD_PATH_FENCE" w (run_command_fence_reason action ctx w)
          (by_engine tool action ctx w (evaluate d.engine action)))

  pub dispatch : Action → Ctx → W → Dispatched W
  dispatch action ctx w = dispatch_with (get_tool action.tool d.registry) action ctx w

  execute_with : Option (Tool W) → Action → Ctx → W → Executed W
  execute_with none action ctx w =
      (ok (result action.tool error (some invalid_action) ("unknown tool " +s action.tool)), w)
  execute_with (some tool) action ctx w =
      fenced_run action.tool w (path_fence_reason action ctx w) (
        fenced_run action.tool w (run_command_fence_reason action ctx w)
          (tool.run action.arguments ctx w))

  execute_bound : Result (Unit {0}) → Action → Ctx → W → Executed W
  unfolding superseded_result
  execute_bound (err e) action ctx w = (ok (superseded_result action.tool (message e)), w)
  execute_bound (ok _) action ctx w = execute_with (get_tool action.tool d.registry) action ctx w

  -- execute_approved; without a fingerprint nothing is bound
  pub execute_approved : (String → String) → Action → Ctx → Option String → W → Executed W
  execute_approved sha256 action ctx none w =
      execute_with (get_tool action.tool d.registry) action ctx w
  execute_approved sha256 action ctx (some approved_fp) w =
      execute_bound (validate_resume sha256 approved_fp action) action ctx w
