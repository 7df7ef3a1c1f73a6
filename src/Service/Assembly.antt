-- ===== src/Service/Assembly.antt =====
-- aegiscode/service/assembly.py: the parts wired into a service. The model's transport, the parser of
-- its replies, the digest and the clock are parameters of the harness that is built.
pub mod Registered
pub mod Gates
pub mod Idle
pub mod Confinement
mod Samples
use aegis_code.Prelude.{
  ℕ, String, Bool, true, false, List, [], ◌∷◌, Option, none, some, Result, ok, err, os_error,
  runtime_error, ◌==◌, if◌then◌else◌,
}
use aegis_code.Prelude.Int.{is_zero}
use aegis_code.Prelude.Text.{◌+s◌, is_abs, is_empty, join_path, mem_text}
use aegis_code.Prelude.Text.Repr.{repr}
use aegis_code.Tools.{Ctx, Tool, Registry, register}
use aegis_code.Tools.Os.{Os, Process, exited, timed_out}
use aegis_code.Tools.Files.{write_file_tool, read_file_tool, list_files_tool, search_text_tool}
use aegis_code.Tools.Commands.{run_command_tool, run_tests_tool, finish_tool}
use aegis_code.Config.{AegisConfig, LlmConfig}
use aegis_code.Governance.Lexer.{shlex_split}
use aegis_code.Governance.Decision.{Verdict, Action}
use aegis_code.Governance.Fence.{Files}
use aegis_code.Governance.Factory.{build_dispatcher}
use aegis_code.Context.{Message}
use aegis_code.Loop.Harness.{Harness, MemoryRow}
use aegis_code.Loop.Harness
use aegis_code.Prompt.{system_prompt, tool_protocol}

-- the client that is built, with what its constructor is given
pub data Client : Type 0 where
  mock : List String → Client
  openai : String → String → Option String → Client
  anthropic : String → String → Option String → Client

-- behind the test of the key
client_with : LlmConfig → String → Result Client
unfolding repr
client_with llm key =
    if llm.provider == "openai"
    then ok (openai llm.model key llm.base_url)
    else if llm.provider == "anthropic"
    then ok (anthropic llm.model key llm.base_url)
    else err (runtime_error ("unknown llm provider: " +s repr llm.provider))

-- a key that is missing or empty
keyed : LlmConfig → Option String → Result Client
unfolding client_with
keyed llm none = err (runtime_error "no API key configured; run `aegiscode key set`")
keyed llm (some key) =
    if is_empty key
    then err (runtime_error "no API key configured; run `aegiscode key set`")
    else client_with llm key

-- build_llm; the key is what the credential store answers, which the mock does not ask for
pub build_llm : LlmConfig → Option String → Result Client
unfolding keyed
build_llm llm key = if llm.provider == "mock" then ok (mock []) else keyed llm key

-- a tool that is registered if its name is enabled
pub add_tool : {W : Type 0} → List String → Tool W → Registry W → Registry W
unfolding mem_text register
add_tool enabled tool reg = if mem_text tool.name enabled then register tool reg else reg

-- _build_registry
pub build_registry : {W : Type 0} → Os W → AegisConfig → Registry W
build_registry os config =
    let enabled = config.tools.enabled in
    let limits = config.limits in
    add_tool enabled
      (run_tests_tool os config.feedback.test_command limits.command_timeout_sec
        limits.output_max_bytes)
      (add_tool enabled (run_command_tool os limits.command_timeout_sec limits.output_max_bytes) (
        add_tool enabled finish_tool (
          add_tool enabled (search_text_tool os) (
            add_tool enabled (list_files_tool os)
              (add_tool enabled (read_file_tool os) (add_tool enabled (write_file_tool os) []))))))

-- the `try` of the verifier, and its last line
pub verified_by : Result Process → Result Bool
verified_by (ok (exited p)) = ok (is_zero p.returncode)
verified_by (ok timed_out) = ok false
verified_by (err (os_error e)) = ok false
verified_by (err e) = err e

verify_argv : {W : Type 0} → Os W → String → ℕ → Result (List String) → W → Result Bool × W
unfolding verified_by
verify_argv os workspace timeout_sec (err e) w = (err e, w)
verify_argv os workspace timeout_sec (ok argv) w =
    let (r, w') = os.run_process argv (some workspace) timeout_sec w in (verified_by r, w')

-- _make_final_verifier
pub final_verifier : {W : Type 0} → Os W → AegisConfig → String → W → Result Bool × W
unfolding verify_argv shlex_split
final_verifier os config workspace w =
    verify_argv os workspace config.limits.command_timeout_sec
      (shlex_split config.feedback.test_command) w

-- the context of a task; its `snapshot` does nothing
pub make_ctx : AegisConfig → String → String → Ctx
unfolding is_abs join_path
make_ctx config task_id workspace = record {
  task_id = task_id;
  workspace_root = some workspace;
  resolve = λ p. if is_abs p then p else join_path workspace p;
  write_max_bytes = config.tools.write_max_bytes;
}

-- what a harness is given that is no part of this file
pub record Given (W : Type 0) : Type 0 where
  pub os : Os W
  pub files : W → Files
  pub complete : Client → List Message → W → Result String × W
  pub parse_action : String → Result Action
  pub sha256 : String → String
  pub sha256_16 : String → String
  pub retrieve : String → ℕ → W → Result (List MemoryRow) × W
  pub elapsed : W → ℕ × W

-- harness_factory, with the client that build_service made
pub harness_factory :
    {W : Type 0}
    → Given W
    → AegisConfig
    → Client
    → String
    → String
    → Option (Action → Verdict → W → Result (Action × Bool) × W)
    → Option (W → Bool × W)
    → Harness W
unfolding make_ctx final_verifier build_registry
harness_factory g config client task_id workspace approval_resolver cancel_check =
    let registry = build_registry g.os config in
    record {
      complete = g.complete client;
      parse_action = g.parse_action;
      dispatcher = build_dispatcher config registry g.files;
      sha256 = g.sha256;
      config = config;
      ctx = make_ctx config task_id workspace;
      final_verifier = final_verifier g.os config workspace;
      approval_resolver = approval_resolver;
      cancel_check = cancel_check;
      memory_store = some g.retrieve;
      project_id = some (g.sha256_16 workspace);
      prompt_builder = some (record {
        system_prompt = system_prompt config.governance;
        tool_protocol = tool_protocol registry;
      });
      elapsed = g.elapsed;
    }
