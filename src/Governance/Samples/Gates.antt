-- ===== src/Governance/Samples/Gates.antt =====
-- A small world, a list of the texts written, with three tools and a dispatcher over them, and the
-- theorems on the dispatcher at them.
use aegis_code.Prelude.{
  ◌≡◌, ◌≢◌, refl, String, Bool, true, false, List, [], ◌∷◌, Option, some, none, Result, ok, ap, All,
  ◌⊎◌, inl, if◌then◌else◌, ◌==◌,
}
use aegis_code.Json.{str, field, end}
use aegis_code.Tools.{success, result, Ctx, Tool, Registry, get_tool}
use aegis_code.Config.{default_config}
use aegis_code.Governance.Decision.{Verdict, Action, evaluate, allow}
use aegis_code.Governance.Fence.{Files}
use aegis_code.Governance.Approval.{fingerprint}
use aegis_code.Governance.Dispatcher.{
  Dispatcher, dispatch, execute_approved, path_fence_reason, run_command_fence_reason,
}
use aegis_code.Governance.Dispatcher.Runs.{Guarded, dispatch-Guarded}
use aegis_code.Governance.Dispatcher.Approved.{Authorized, execute_approved-Authorized}
use aegis_code.Governance.Factory.{build_dispatcher}

-- a tool that notes its name in the world
abbrev noting : String → Tool (List String)
noting name = record {
  name = name;
  description = "";
  parameters = end;
  run = λ args ctx w. (ok (result name success none "done"), name ∷ w);
}

abbrev tools : Registry (List String)
tools =
    ("write_file", noting "write_file")
    ∷ ("run_command", noting "run_command")
    ∷ ("finish", noting "finish")
    ∷ []

abbrev no_links : List String → Files
no_links w = record { realpath = λ p. p; exists = λ p. false; islink = λ p. false }

abbrev ctx : Ctx
ctx = record {
  task_id = "t1";
  workspace_root = some "/w";
  resolve = λ p. p;
  write_max_bytes = 1000;
}

abbrev writing : Action
writing = record {
  tool = "write_file";
  arguments = field "path" (str "src/a.py") (field "content" (str "x") end);
}

abbrev committing : Action
committing = record {
  tool = "run_command";
  arguments = field "command" (str "git commit -m x") end;
}

abbrev gates : Dispatcher (List String)
gates = build_dispatcher default_config tools no_links

-- the digest that changes nothing
abbrev plain : String → String
plain s = s

dispatch-Guarded_example : Guarded gates writing ctx [] (dispatch gates writing ctx [])
dispatch-Guarded_example = dispatch-Guarded gates writing ctx []

execute_approved-Bound_example :
    Authorized gates plain committing ctx []
      (fingerprint plain committing)
      (execute_approved gates plain committing ctx (some (fingerprint plain committing)) [])
execute_approved-Bound_example =
    execute_approved-Authorized gates plain committing ctx [] (fingerprint plain committing)

abbrev finishing : Action
finishing = record { tool = "finish"; arguments = end }

abbrev finish_verdict : Verdict
finish_verdict = record {
  decision = allow;
  rule_id = "TIER_FINISH";
  reason = "finish action always allowed";
}

-- a dispatcher that allows everything
abbrev open_gates : Dispatcher (List String)
open_gates = record {
  registry = tools;
  engine = record { rules = []; default_fn = λ a. ok finish_verdict };
  workspace_root = "/w";
  sensitive_patterns = [];
  files = no_links;
}

finish_path : path_fence_reason open_gates finishing ctx [] ≡ ok none
unfolding path_fence_reason aegis_code.Prelude.Text.mem_text
finish_path = refl

finish_command : run_command_fence_reason open_gates finishing ctx [] ≡ ok none
unfolding run_command_fence_reason
finish_command = refl

finish_judged : evaluate open_gates.engine finishing ≡ ok finish_verdict
unfolding evaluate
finish_judged = refl

finish_registered : get_tool "finish" tools ≡ some (noting "finish")
unfolding get_tool
finish_registered = refl

launch_unknown : get_tool "launch" tools ≡ none
unfolding get_tool
launch_unknown = refl
