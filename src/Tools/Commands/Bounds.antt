-- ===== src/Tools/Commands/Bounds.antt =====
-- What RunCommandTool and RunTestsTool of aegiscode/tools hand on of a process.
use aegis_code.Prelude.{
  ◌≡◌, refl, ◌↔◌, ◌≤◌, ℕ, String, List, Option, none, some, Result, ok, err, subst, arith, leb→le,
  if◌then◌else◌, ◌>>=◌,
}
use aegis_code.Prelude.Int.{ℤ, is_zero}
use aegis_code.Prelude.Text.{◌+s◌, text_length}
use aegis_code.Prelude.Text.Lines.{take_text, take_text-length}
use aegis_code.Json.{Fields}
use aegis_code.Tools.{success, failure, timeout, ToolResult, Ctx}
use aegis_code.Tools.Files.{argument}
use aegis_code.Governance.Lexer.{split_json, shlex_split}
use aegis_code.Tools.Os.{Os, Completed, Process, exited, timed_out}
use aegis_code.Tools.Commands.{
  command_result, tests_result, ended, run_argv, run_command, run_tests,
}

-- What a result tells of how a process went: of one that ended the exit code and the first part of
-- its two outputs, with success exactly at code 0; of one that was stopped the timeout.
pub Reports : ℕ → Process → ToolResult → Type 0
Reports max_bytes (exited p) r =
    ((r.status ≡ success) ↔ (p.returncode ≡ ℤ.pos 0))
    × (r.exit_code ≡ some p.returncode)
    × (r.detail_for_llm ≡ take_text max_bytes (p.stdout +s p.stderr))
    × (text_length r.detail_for_llm ≤ max_bytes)
Reports max_bytes timed_out r =
    (r.status ≡ failure)
    × (r.category ≡ some timeout)
    × (r.exit_code ≡ none)
    × (r.detail_for_llm ≡ "")

exit-IsZero : (n : ℤ) → ((if is_zero n then success else failure) ≡ success) ↔ (n ≡ ℤ.pos 0)
exit-IsZero (ℤ.pos ℕ.zero) = (λ h. refl, λ h. refl)
exit-IsZero (ℤ.pos (ℕ.suc n)) = (λ h. absurd (ground arith), λ h. absurd (ground arith))
exit-IsZero (ℤ.negsuc n) = (λ h. absurd (ground arith), λ h. absurd (ground arith))

command-Reports :
    (max_bytes : ℕ) (p : Completed) → Reports max_bytes (exited p) (command_result max_bytes p)
unfolding Reports command_result
command-Reports max_bytes p = (
  exit-IsZero p.returncode,
  refl,
  refl,
  leb→le _ _ (take_text-length max_bytes (p.stdout +s p.stderr)),
)

tests-Reports :
    (max_bytes : ℕ) (p : Completed) → Reports max_bytes (exited p) (tests_result max_bytes p)
unfolding Reports tests_result
tests-Reports max_bytes p = (
  exit-IsZero p.returncode,
  refl,
  refl,
  leb→le _ _ (take_text-length max_bytes (p.stdout +s p.stderr)),
)

module _ {W : Type 0} (os : Os W) (timeout_sec max_bytes : ℕ) (cwd : Option String) where
  -- A result that comes of a process: the one that was run on these words, in the workspace and
  -- with the timeout.
  pub record Tells (words : Result (List String)) (w : W) (r : ToolResult) : Type 0 where
    pub argv : List String
    pub lexed : words ≡ ok argv
    pub process : Process
    pub went : (os.run_process argv cwd timeout_sec w).0 ≡ ok process
    pub reports : Reports max_bytes process r

  module _ (late : ToolResult) (done : Completed → ToolResult)
      (late_Reports : Reports max_bytes timed_out late)
      (done_Reports : (p : Completed) → Reports max_bytes (exited p) (done p)) where
    ended-Reports :
        (o : Result Process) (r : ToolResult)
        → ended late done o ≡ ok r
        → (p : Process) × (o ≡ ok p) × Reports max_bytes p r
    unfolding ended
    ended-Reports (ok (exited p)) r h =
        (exited p, refl, subst (Reports max_bytes (exited p)) (cc) (done_Reports p))
    ended-Reports (ok timed_out) r h =
        (timed_out, refl, subst (Reports max_bytes timed_out) (cc) late_Reports)
    ended-Reports (err e) r h = absurd (ground arith)

    run_argv-Tells :
        (words : Result (List String)) (w : W) (r : ToolResult)
        → (run_argv os late done timeout_sec cwd words w).0 ≡ ok r
        → Tells words w r
    unfolding run_argv
    run_argv-Tells (err e) w r h = absurd (ground arith)
    run_argv-Tells (ok argv) w r h =
        let (p, went, reports) = ended-Reports (os.run_process argv cwd timeout_sec w).0 r h in
        record { argv = argv; lexed = refl; process = p; went = went; reports = reports }

-- A result of run_command or of run_tests tells how the process went that was run, in the
-- workspace and with the timeout, on the words of the command that was given or configured: the
-- status is success exactly if the process ended with exit code 0, the exit code is the process's,
-- and the text is the first output_max_bytes characters of its outputs; a process that was stopped
-- gives a failure with the category TIMEOUT and no exit code.
pub run-Tells :
    {W : Type 0} (os : Os W) (cmd : String) (timeout_sec max_bytes : ℕ) (arguments : Fields)
    (ctx : Ctx) (w : W) (r : ToolResult)
    → ((run_command os timeout_sec max_bytes arguments ctx w).0 ≡ ok r
        → Tells os timeout_sec max_bytes ctx.workspace_root
            (argument "command" arguments >>= split_json)
            w
            r)
      × ((run_tests os cmd timeout_sec max_bytes arguments ctx w).0 ≡ ok r
          → Tells os timeout_sec max_bytes ctx.workspace_root (shlex_split cmd) w r)
unfolding run_command run_tests Reports
run-Tells os cmd timeout_sec max_bytes arguments ctx w r = (
  run_argv-Tells os timeout_sec max_bytes ctx.workspace_root _ (command_result max_bytes)
      (refl, refl, refl, refl) (command-Reports max_bytes) _ w r,
  run_argv-Tells os timeout_sec max_bytes ctx.workspace_root _ (tests_result max_bytes)
      (refl, refl, refl, refl) (tests-Reports max_bytes) _ w r,
)
