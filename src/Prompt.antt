-- ===== src/Prompt.antt =====
-- aegiscode/prompt/builder.py and `ToolRegistry.describe` of aegiscode/tools/registry.py: the texts
-- that open every turn. A tool's `parameters` map a name to the fields type, required and note.
use aegis_code.Prelude.{ℕ, String, List, [], ◌∷◌, ◌++◌, map, if◌then◌else◌}
use aegis_code.Prelude.Text.{◌+s◌, join_with}
use aegis_code.Prelude.Text.Repr.{decimal}
use aegis_code.Json.{Json, str, obj, Fields, end, field, get_or, is_falsy}
use aegis_code.Tools.{Tool, Registry}
use aegis_code.Config.{GovernanceConfig}
use aegis_code.Governance.Decision.{value}
use aegis_code.Governance.Rules.{CommandRule}

-- a text that stands under a key, or the default
text_or : String → String → Fields → String
text_or key default meta = elim (get_or key (str default) meta) [ str s ↦ s | _ ↦ default ]

param_line : String → Fields → String
unfolding text_or
param_line name meta =
    let required = if is_falsy (get_or "required" Json.null meta) then "optional" else "required" in
    "    - "
    +s name
    +s " ("
    +s text_or "type" "string" meta
    +s ", "
    +s required
    +s "): "
    +s text_or "note" "" meta

param_lines : Fields → List String
unfolding param_line
param_lines end = []
param_lines (field name (obj meta) fs) = param_line name meta ∷ param_lines fs
param_lines (field name _ fs) = param_lines fs

no_arguments : Fields → List String
no_arguments end = "    (no arguments)" ∷ []
no_arguments (field k v fs) = []

module _ {W : Type 0} where
  describe_tool : Tool W → String
  unfolding param_lines no_arguments
  describe_tool t = join_with "\n" (
      ("- " +s t.name +s ": " +s t.description) ∷ no_arguments t.parameters
      ++ param_lines t.parameters)

  describe_blocks : Registry W → List String
  unfolding describe_tool
  describe_blocks [] = []
  describe_blocks ((_, t) ∷ ts) = describe_tool t ∷ describe_blocks ts

  -- ToolRegistry.describe
  pub describe : Registry W → String
  unfolding describe_blocks
  describe ts = join_with "\n" (describe_blocks ts)

show_rule : CommandRule → String
show_rule r = r.argv0 +s " " +s join_with " " r.args_contain +s " -> " +s value r.decision

-- PromptBuilder.system_prompt
pub system_prompt : GovernanceConfig → ℕ → String
unfolding show_rule
system_prompt g remaining_steps =
    let sensitive = join_with ", " g.sensitive_file_patterns in
    let allowlist = join_with ", " g.command_allowlist in
    let rules = join_with "; " (map show_rule g.command_rules) in
    "You are AegisCode, a coding agent running INSIDE the AegisCode "
    +s "harness. You have NO direct access to the file system or the shell. "
    +s "Every effect happens ONLY through a tool call, which is "
    +s "parameter-validated, governed, executed, and audited by the harness.\n"
    +s "\n"
    +s "Rules you must follow:\n"
    +s "- Return EXACTLY ONE structured action per turn (see the tool "
    +s "protocol). Never describe multiple actions.\n"
    +s "- Use only the tools listed in the tool protocol; no other tool "
    +s "exists for you.\n"
    +s "- Operate only within the current workspace. Do NOT use path "
    +s "traversal ('..'), absolute paths, or touch sensitive files "
    +s "("
    +s sensitive
    +s ").\n"
    +s "- Command allowlist: "
    +s allowlist
    +s ". Governed command rules: "
    +s rules
    +s ".\n"
    +s "- After any tool failure, governance denial, parse error, or pytest "
    +s "failure, read the feedback and change your next action accordingly.\n"
    +s "- Never claim you performed an action you did not actually emit as a "
    +s "tool call.\n"
    +s "- Emit the `finish` action ONLY after the tests objectively pass "
    +s "(pytest exit code 0); the harness independently re-runs pytest before "
    +s "accepting completion.\n"
    +s "- Do NOT repeat an action that already succeeded: if a file is "
    +s "already written correctly or a command already succeeded, do not "
    +s "send it again — the harness flags a repeated identical action as "
    +s "NO_PROGRESS and stops the run.\n"
    +s "- As soon as the tests objectively pass (pytest exit code 0), your "
    +s "next action MUST be `finish` — do not rewrite files that are already "
    +s "correct.\n"
    +s "- You have "
    +s decimal remaining_steps
    +s " step(s) remaining."

-- PromptBuilder.tool_protocol
pub tool_protocol : {W : Type 0} → Registry W → String
tool_protocol ts =
    "TOOL PROTOCOL — respond with a SINGLE JSON object in a ```json "
    +s "fenced block, and nothing else that could be mistaken for JSON:\n"
    +s "```json\n"
    +s "{\"thought\": \"<your reasoning>\", \"tool\": \"<tool name>\", "
    +s "\"arguments\": {<tool arguments>}, \"expectation\": \"<what you expect>\"}\n"
    +s "```\n"
    +s "`thought` and `expectation` are optional; `tool` and `arguments` are "
    +s "required. `arguments` must match the selected tool's schema below.\n"
    +s "\n"
    +s "Available tools:\n"
    +s describe ts
