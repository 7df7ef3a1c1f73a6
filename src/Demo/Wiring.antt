-- ===== src/Demo/Wiring.antt =====
-- The harnesses that aegiscode/demo/service.py builds. The world holds the scripted client of each run
-- and how often its resolver of approvals was called.
pub mod Silent
pub mod Superseded
use aegis_code.Prelude.{
  ℕ, ◌+◌, String, Bool, true, false, List, [], Option, none, some, Result, ok, err, ◌==◌, nat_eq,
  if◌then◌else◌, ◌>>=◌,
}
use aegis_code.Prelude.Text.{◌+s◌}
use aegis_code.Json.{str, put}
use aegis_code.Tools.{Registry}
use aegis_code.Tools.Os.{Os}
use aegis_code.Config.{
  AegisConfig, default_config, default_limits, default_tools, default_feedback, FeedbackConfig,
}
use aegis_code.Context.{Message}
use aegis_code.Governance.Decision.{Action, Verdict}
use aegis_code.Governance.Fence.{Files}
use aegis_code.Governance.Factory.{build_dispatcher}
use aegis_code.Llm.{Mock, scripted, complete_mock}
use aegis_code.Loop.Harness.{Harness}
use aegis_code.Service.Assembly
use aegis_code.Service.Assembly.{build_registry, make_ctx}
use aegis_code.Demo.Registry.{Scenario, get_scenario}

abbrev pub Resolver : Type 0 → Type 0
Resolver W = Action → Verdict → W → Result (Action × Bool) × W

-- what a harness is given from outside
pub record Stage (W : Type 0) : Type 0 where
  pub os : Os W
  pub files : W → Files
  pub parse_action : String → Result Action
  pub sha256 : String → String
  pub elapsed : W → ℕ × W
  pub executable : String
  pub mock_of : W → Mock
  pub set_mock : Mock → W → W
  pub calls_of : W → ℕ
  pub set_calls : ℕ → W → W

feedback_for : String → Option String → FeedbackConfig
feedback_for executable none = default_feedback
feedback_for executable (some fixture) =
    if fixture == "calc"
    then record default_feedback { test_command = executable +s " check.py" }
    else default_feedback

-- _build_config
pub build_config : String → Scenario → String → String → AegisConfig
unfolding feedback_for
build_config executable scenario workspace allowed_base = record default_config {
  workspace = record { root = workspace; allowed_base = some allowed_base };
  limits = record default_limits {
    max_steps = scenario.max_steps;
    max_consecutive_failures = scenario.max_consecutive_failures;
  };
  tools = record default_tools { enabled = scenario.enabled_tools };
  feedback = feedback_for executable scenario.fixture;
}

-- the action as the seam leaves it
abbrev pub mutated : Action → Action
mutated action = record action { arguments = put "content" (str "<mutated>") action.arguments }

module _ {W : Type 0} (g : Stage W) where
  -- the client of a run, in the world
  unfoldable pub complete_scripted : List Message → W → Result String × W
  complete_scripted messages w =
      let (r, m) = complete_mock messages (g.mock_of w) in (r, g.set_mock m w)

  -- the client without a script, which nobody else sees
  unfoldable pub complete_keyless : List Message → W → Result String × W
  complete_keyless messages w = ((complete_mock messages (scripted [])).0, w)

  -- _wrap_supersede_resolver
  unfoldable pub wrap_supersede_resolver : Resolver W → Resolver W
  wrap_supersede_resolver base action v w =
      let n = g.calls_of w + 1 in
      let counted = g.set_calls n w in
      if nat_eq n 1 then base action v counted else (ok (mutated action, true), counted)

  -- _build_final_verifier
  pub build_final_verifier : Scenario → AegisConfig → String → W → Result Bool × W
  build_final_verifier scenario config workspace w = elim scenario.fixture [
    | none ↦ (ok true, w)
    | some fixture ↦
        if fixture == "calc" then Assembly.final_verifier g.os config workspace w else (ok true, w)
  ]

  abbrev wrapped : Bool → Option (Resolver W) → Option (Resolver W)
  wrapped interactive none = none
  wrapped interactive (some resolver) =
      if interactive then some (wrap_supersede_resolver resolver) else some resolver

  -- _fallback_harness
  unfoldable pub fallback_harness : String → String → String → Option (W → Bool × W) → Harness W
  fallback_harness allowed_base task_id workspace cancel_check =
      let config = record default_config {
        workspace = record { root = workspace; allowed_base = some allowed_base };
      } in
      record {
        complete = complete_keyless;
        parse_action = g.parse_action;
        dispatcher = build_dispatcher config (build_registry g.os config) g.files;
        sha256 = g.sha256;
        config = config;
        ctx = make_ctx config task_id workspace;
        final_verifier = λ w. (ok false, w);
        approval_resolver = none;
        cancel_check = cancel_check;
        memory_store = none;
        project_id = none;
        prompt_builder = none;
        elapsed = g.elapsed;
      }

  -- _harness_factory for a registered workspace
  pub scenario_harness :
      String → String → String → Option (Resolver W) → Option (W → Bool × W) → Scenario → Harness W
  unfolding build_config
  scenario_harness allowed_base task_id workspace approval_resolver cancel_check scenario =
      let config = build_config g.executable scenario workspace allowed_base in
      record {
        complete = complete_scripted;
        parse_action = g.parse_action;
        dispatcher = build_dispatcher config (build_registry g.os config) g.files;
        sha256 = g.sha256;
        config = config;
        ctx = make_ctx config task_id workspace;
        final_verifier = build_final_verifier scenario config workspace;
        approval_resolver = wrapped scenario.interactive_approval approval_resolver;
        cancel_check = cancel_check;
        memory_store = none;
        project_id = none;
        prompt_builder = none;
        elapsed = g.elapsed;
      }

  -- _harness_factory; the scenario is what `start_run` noted for the workspace
  pub demo_harness_factory :
      String
      → Option String
      → String
      → String
      → Option (Resolver W)
      → Option (W → Bool × W)
      → Result (Harness W)
  demo_harness_factory allowed_base none task_id workspace approval_resolver cancel_check =
      ok (fallback_harness allowed_base task_id workspace cancel_check)
  demo_harness_factory allowed_base (some scenario_id) task_id workspace approval_resolver
        cancel_check =
      get_scenario scenario_id >>= λ scenario.
      ok (scenario_harness allowed_base task_id workspace approval_resolver cancel_check scenario)
