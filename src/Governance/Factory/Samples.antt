-- ===== src/Governance/Factory/Samples.antt =====
-- A command that the default tiers of aegiscode/governance/factory.py let run.
use aegis_code.Prelude.{◌≡◌, refl, ◌∙◌, ap, false, String, List, [], ◌∷◌, some, none, ok, ◌⊎◌, inl}
use aegis_code.Prelude.Text.{mem_text}
use aegis_code.Json.{str, field, end, get, is_falsy}
use aegis_code.Tools.{success, result, Ctx, Tool, Registry, get_tool}
use aegis_code.Config.{default_config}
use aegis_code.Governance.Decision.{Action, Verdict, evaluate, allow}
use aegis_code.Governance.Fence.{Files}
use aegis_code.Governance.Lexer.{lex_command}
use aegis_code.Governance.Rules
use aegis_code.Governance.Rules.{judge_command}
use aegis_code.Governance.CommandFence.{fence_command}
use aegis_code.Governance.Dispatcher.{
  Dispatcher, Dispatched, dispatch, path_fence_reason, run_command_fence_reason,
}
use aegis_code.Governance.Dispatcher.Runs.{dispatch-runs, finish_run-world}
use aegis_code.Governance.Factory.{build_dispatcher, build_engine, default_fn}
use aegis_code.Governance.Factory.Tiers.{CommandRan, dispatch-run_command}

-- a tool that notes its name in the world
abbrev command_tool : Tool (List String)
command_tool = record {
  name = "run_command";
  description = "";
  parameters = end;
  run = λ args ctx w. (ok (result "run_command" success none "done"), "run_command" ∷ w);
}

abbrev tools : Registry (List String)
tools = ("run_command", command_tool) ∷ []

abbrev no_links : List String → Files
no_links w = record { realpath = λ p. p; exists = λ p. false; islink = λ p. false }

abbrev ctx : Ctx
ctx = record {
  task_id = "t1";
  workspace_root = some "/w";
  resolve = λ p. p;
  write_max_bytes = 1000;
}

abbrev gates : Dispatcher (List String)
gates = build_dispatcher default_config tools no_links

abbrev testing : Action
testing = record { tool = "run_command"; arguments = field "command" (str "pytest -q") end }

dispatch-run_command_example :
    ((dispatch gates testing ctx []).1 ≡ [])
    ⊎ CommandRan default_config tools no_links testing ctx []
dispatch-run_command_example =
    dispatch-run_command default_config tools no_links testing ctx [] refl

abbrev tested_verdict : Verdict
tested_verdict = record {
  decision = allow;
  rule_id = "CMD_DEFAULT_ALLOWED";
  reason = "pytest allowed";
}

tested_path : path_fence_reason gates testing ctx [] ≡ ok none
unfolding path_fence_reason mem_text
tested_path = refl

tested_command : run_command_fence_reason gates testing ctx [] ≡ ok none
unfolding run_command_fence_reason build_dispatcher get is_falsy fence_command lex_command
tested_command = refl

tested_judged : evaluate gates.engine testing ≡ ok tested_verdict
unfolding evaluate build_dispatcher build_engine default_fn get mem_text judge_command lex_command
    Rules.verdict_of Rules.pick Rules.consider Rules.rule_matches
tested_judged = refl

tested_registered : get_tool "run_command" gates.registry ≡ some command_tool
unfolding get_tool build_dispatcher
tested_registered = refl

-- the command runs
tested : (dispatch gates testing ctx []).1 ≡ "run_command" ∷ []
tested =
    ap (λ (out : Dispatched (List String)). out.1)
      (dispatch-runs gates testing ctx [] command_tool tested_verdict tested_registered tested_path
        tested_command tested_judged (inl refl))
    ∙ finish_run-world tested_verdict _
