-- ===== src/Governance/Dispatcher/Gates.antt =====
-- The fences of aegiscode/governance/dispatcher.py, as promises about the action behind them.
use aegis_code.Prelude.{
  ◌≡◌, refl, String, true, false, List, ◌∷◌, none, Result, ok, err, arith, All, eq_iff,
}
use aegis_code.Prelude.Text.{mem_text}
use aegis_code.Json.{Json, null, str, get_or, has_key, is_falsy}
use aegis_code.Tools.{Ctx}
use aegis_code.Governance.Decision.{Action}
use aegis_code.Governance.Lexer.{LexResult, lex_command}
use aegis_code.Governance.Fence.{PathVerdict, check_path}
use aegis_code.Governance.Fence.Allows.{Fenced, check_path-Fenced}
use aegis_code.Governance.CommandFence.{file_consuming, fence_command}
use aegis_code.Governance.CommandFence.Clears.{Clear, fence_command-clears}
use aegis_code.Governance.Dispatcher.{
  Dispatcher, file_tools, root_or, path_fence_reason, run_command_fence_reason,
}

module _ {W : Type 0} (d : Dispatcher W) (action : Action) (ctx : Ctx) (w : W) where
  -- The workspace that the fences are anchored in.
  abbrev pub anchor : String
  anchor = root_or ctx.workspace_root d.workspace_root

  abbrev pub command_of : Json
  command_of = get_or "command" (str "") action.arguments

  -- Both fences, as promises about the action.
  pub record FencesPass : Type 0 where
    pub path_fenced :
        mem_text action.tool file_tools ≡ true
        → has_key "path" action.arguments ≡ true
        → Fenced (d.files w) (get_or "path" null action.arguments) anchor d.sensitive_patterns
    pub command_cleared :
        action.tool ≡ "run_command"
        → is_falsy command_of ≡ false
        → (lr : LexResult) (argv0 : String) (args : List String) → lex_command command_of ≡ ok lr
        → lr.is_ok ≡ true
        → lr.argv ≡ argv0 ∷ args
        → All (Clear (d.files w) (file_consuming argv0) anchor d.sensitive_patterns) args

  path_checked :
      (r : Result PathVerdict)
      → check_path (d.files w) (get_or "path" null action.arguments) anchor d.sensitive_patterns ≡ r
      → path_fence_reason d action ctx w ≡ ok none
      → mem_text action.tool file_tools ≡ true
      → has_key "path" action.arguments ≡ true
      → Fenced (d.files w) (get_or "path" null action.arguments) anchor d.sensitive_patterns
  path_checked (err e) read h file has = unfold path_fence_reason in (ground arith)
  path_checked (ok pv) read h file has =
      check_path-Fenced (d.files w) (get_or "path" null action.arguments) anchor
        d.sensitive_patterns pv read (unfold path_fence_reason in (ground arith))

  command_checked :
      run_command_fence_reason d action ctx w ≡ ok none
      → action.tool ≡ "run_command"
      → is_falsy command_of ≡ false
      → fence_command (d.files w) command_of anchor d.sensitive_patterns ≡ ok none
  unfolding run_command_fence_reason
  command_checked h tool given = ground (arith, eq_iff action.tool "run_command")

  pub reasons-FencesPass :
      path_fence_reason d action ctx w ≡ ok none
      → run_command_fence_reason d action ctx w ≡ ok none
      → FencesPass
  reasons-FencesPass p c = record {
    path_fenced = path_checked _ refl p;
    command_cleared = λ tool given lr argv0 args read good argv.
        fence_command-clears (d.files w) command_of anchor d.sensitive_patterns lr argv0 args read
          good argv (command_checked c tool given);
  }
