-- ===== src/Tools/Commands.antt =====
-- aegiscode/tools/command_tool.py, run_tests_tool.py and finish_tool.py over the operating system.
pub mod Bounds
mod Samples
use aegis_code.Prelude.{
  ℕ, String, Bool, true, false, List, Option, none, some, Result, ok, err, if◌then◌else◌, ltb,
  ◌>>=◌,
}
use aegis_code.Prelude.Int.{is_zero, decimal_ℤ}
use aegis_code.Prelude.Text.{◌+s◌, text_length}
use aegis_code.Prelude.Text.Lines.{take_text}
use aegis_code.Json.{Json, str, bool, obj, Fields, end, field}
use aegis_code.Tools.{
  Status, success, failure, Category, tool_error, timeout, ToolResult, result, Ctx, Tool,
}
use aegis_code.Tools.Os.{Os, Completed, Process, exited, timed_out}
use aegis_code.Tools.Files.{argument}
use aegis_code.Governance.Lexer.{split_json, shlex_split}

-- "success" if p.returncode == 0 else "failure"
abbrev pub status_of : Completed → Status
status_of p = if is_zero p.returncode then success else failure

-- the result of a command that ended
pub command_result : ℕ → Completed → ToolResult
unfolding take_text text_length decimal_ℤ
command_result max_bytes p =
    let combined = p.stdout +s p.stderr in
    record (result "run_command" (status_of p)
      (if is_zero p.returncode then none else some tool_error)
      ("exit " +s decimal_ℤ p.returncode)) {
        detail_for_llm = take_text max_bytes combined;
        exit_code = some p.returncode;
        truncated = ltb max_bytes (text_length combined);
      }

-- the result of tests that ended
pub tests_result : ℕ → Completed → ToolResult
unfolding take_text decimal_ℤ
tests_result max_bytes p =
    record (result "run_tests" (status_of p) none ("tests exit " +s decimal_ℤ p.returncode)) {
      detail_for_llm = take_text max_bytes (p.stdout +s p.stderr);
      exit_code = some p.returncode;
    }

-- the `try` about the process: only the timeout is caught
pub ended : ToolResult → (Completed → ToolResult) → Result Process → Result ToolResult
ended late done (ok (exited p)) = ok (done p)
ended late done (ok timed_out) = ok late
ended late done (err e) = err e

module _ {W : Type 0} (os : Os W) where
  pub run_argv :
      ToolResult
      → (Completed → ToolResult)
      → ℕ
      → Option String
      → Result (List String)
      → W
      → Result ToolResult × W
  unfolding ended
  run_argv late done timeout_sec cwd (err e) w = (err e, w)
  run_argv late done timeout_sec cwd (ok argv) w =
      let (r, w') = os.run_process argv cwd timeout_sec w in (ended late done r, w')

  -- RunCommandTool.run
  pub run_command : ℕ → ℕ → Fields → Ctx → W → Result ToolResult × W
  unfolding argument split_json run_argv command_result
  run_command timeout_sec max_bytes arguments ctx w =
      run_argv (result "run_command" failure (some timeout) "command timed out")
        (command_result max_bytes) timeout_sec ctx.workspace_root
        (argument "command" arguments >>= split_json) w

  -- RunTestsTool.run
  pub run_tests : String → ℕ → ℕ → Fields → Ctx → W → Result ToolResult × W
  unfolding run_argv tests_result
  run_tests cmd timeout_sec max_bytes arguments ctx w =
      run_argv (result "run_tests" failure (some timeout) "tests timed out")
        (tests_result max_bytes) timeout_sec ctx.workspace_root (shlex_split cmd) w

-- FinishTool.run
unfoldable pub finish : {W : Type 0} → Fields → Ctx → W → Result ToolResult × W
finish arguments ctx w = (
  ok (record (result "finish" success none "agent requested finish") {
    artifacts = field "finish" (bool true) end;
  }),
  w,
)

module _ {W : Type 0} (os : Os W) where
  abbrev pub run_command_tool : ℕ → ℕ → Tool W
  run_command_tool timeout_sec max_bytes = record {
    name = "run_command";
    description = "Run an allowlisted shell command (shell=False, argv, cwd locked to workspace).";
    parameters =
        field "command"
          (obj (
            field "type" (str "string") (
              field "required" (bool true)
                (field "note" (str "command string; lexed + allowlist + rule governed") end))))
          end;
    run = run_command os timeout_sec max_bytes;
  }

  abbrev pub run_tests_tool : String → ℕ → ℕ → Tool W
  run_tests_tool test_command timeout_sec max_bytes = record {
    name = "run_tests";
    description = "Run the project's configured test command (the objective feedback sensor).";
    parameters = end;
    run = run_tests os test_command timeout_sec max_bytes;
  }

abbrev pub finish_tool : {W : Type 0} → Tool W
finish_tool = record {
  name = "finish";
  description =
      "Declare the task complete. Only accepted after pytest objectively passes (final verifier re-runs it).";
  parameters = end;
  run = finish;
}
