-- ===== src/Governance/Factory.antt =====
-- aegiscode/governance/factory.py
pub mod Tiers
mod Samples
use aegis_code.Prelude.{
  String, Bool, true, false, ◌&&◌, ◌||◌, List, [], ◌∷◌, Option, none, some, map, Result, ok, err,
  attribute_error, ◌==◌, if◌then◌else◌,
}
use aegis_code.Prelude.Text.{◌+s◌, ends_with, starts_with, mem_text}
use aegis_code.Prelude.Text.Repr.{repr}
use aegis_code.Json.{Json, str, get_or, repr_json, type_name}
use aegis_code.Tools.{Registry}
use aegis_code.Config.{AegisConfig, GovernanceConfig, DefaultDecisions}
use aegis_code.Governance.Decision.{Decision, allow, value, Verdict, Action, PolicyEngine}
use aegis_code.Governance.Rules.{judge_command}
use aegis_code.Governance.Fence.{Files}
use aegis_code.Governance.Dispatcher.{Dispatcher}

abbrev pub readonly_tools : List String
readonly_tools = "read_file" ∷ "list_files" ∷ "search_text" ∷ []

-- every entry ends with a slash
abbrev pub with_slash : String → String
with_slash d = if ends_with b'/' d then d else d +s "/"

first_dir : String → List String → Option String
first_dir path [] = none
first_dir path (dir ∷ dirs) = if starts_with path dir then some dir else first_dir path dirs

write_denied : DefaultDecisions → Json → Verdict
write_denied dd path = record {
  decision = dd.write;
  rule_id = "TIER_WRITE";
  reason = "write path " +s repr_json path +s " not in write_allowlist_dirs → " +s value dd.write;
}

write_in : DefaultDecisions → String → Option String → Verdict
write_in dd path none = write_denied dd (str path)
write_in dd path (some dir) = record {
  decision = allow;
  rule_id = "TIER_WRITE_ALLOWLISTED";
  reason = "write path " +s repr path +s " is under allowlisted dir " +s repr dir;
}

-- a path that is no text has no `startswith`, which the loop calls if there is a directory
judge_write : DefaultDecisions → List String → Json → Result Verdict
judge_write dd dirs (str path) = ok (write_in dd path (first_dir path dirs))
judge_write dd [] path = ok (write_denied dd path)
judge_write dd (dir ∷ dirs) path =
    err (attribute_error ("'" +s type_name path +s "' object has no attribute 'startswith'"))

-- build_default_fn
pub default_fn : GovernanceConfig → Action → Result Verdict
default_fn g action =
    let tool = action.tool in
    if tool == "run_command"
    then judge_command (get_or "command" (str "") action.arguments) g.command_allowlist
        g.command_rules
    else if tool == "finish"
    then ok (record {
      decision = allow;
      rule_id = "TIER_FINISH";
      reason = "finish action always allowed";
    })
    else if tool == "run_tests"
    then ok (record {
      decision = allow;
      rule_id = "TIER_SENSOR";
      reason = "run_tests is the feedback sensor → always allowed to execute";
    })
    else if mem_text tool readonly_tools
    then ok (record {
      decision = g.decisions.readonly;
      rule_id = "TIER_READONLY";
      reason = "readonly tool " +s repr tool +s " → " +s value g.decisions.readonly;
    })
    else if tool == "write_file"
    then judge_write g.decisions (map with_slash g.write_allowlist_dirs)
        (get_or "path" (str "") action.arguments)
    else ok (record {
      decision = g.decisions.command;
      rule_id = "TIER_DEFAULT";
      reason =
          "tool " +s repr tool +s " not recognised → fail-closed " +s value g.decisions.command;
    })

pub build_engine : AegisConfig → PolicyEngine
build_engine config = record { rules = []; default_fn = default_fn config.governance }

-- build_path_config and build_dispatcher
pub build_dispatcher : {W : Type 0} → AegisConfig → Registry W → (W → Files) → Dispatcher W
build_dispatcher config registry files = record {
  registry = registry;
  engine = build_engine config;
  workspace_root = config.workspace.root;
  sensitive_patterns = config.governance.sensitive_file_patterns;
  files = files;
}
