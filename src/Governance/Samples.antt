-- ===== src/Governance/Samples.antt =====
-- Concrete commands, and the theorems on the lexer, the rules and the approvals at them.
mod Gates
use mathlib.Core.List.{Perm, Permᴰ}
use aegis_code.Prelude.{
  ◌≡◌, ◌≢◌, refl, String, Bool, true, false, List, [], ◌∷◌, some, ok, ◌⊎◌, arith, ◌==◌, ◌&&◌, ◌||◌,
  if◌then◌else◌, All, eq_iff, Option, none,
}
use aegis_code.Prelude.Text.{mem_text, is_empty, basename, starts_with}
use aegis_code.Json.{Json, str, field, end, get_or, null}
use aegis_code.Tools.{Ctx, Registry}
use aegis_code.Config.{default_config, default_governance, default_command_rules, command_rule}
use aegis_code.Governance.Decision.{
  Verdict, Action, allow, deny, severity, require_approval, allow_with_audit,
}
use aegis_code.Governance.Lexer.{lex_command, LexResult, shlex_split}
use aegis_code.Json.Dumps.{dumps}
use aegis_code.Governance.Lexer.Reads.{Reads, lex_command-Reads}
use aegis_code.Governance.Approval.{
  snapshot, fingerprint, validate_resume, ApprovalRequest, ApprovalStore, empty_store, create,
  get_request, decide, remember, check_remembered,
}
use aegis_code.Governance.Approval.Binding.{Clash, validate_resume-binds}
use aegis_code.Governance.Approval.Store.{settled, get_request-decide, check_remembered-remember}
use aegis_code.Governance.Rules
use aegis_code.Governance.Rules.{judge_command, norm_argv0, CommandRule}
use aegis_code.Governance.Rules.MostRestrictive.{strictest, judge-strictest, judge_command-perm}
use aegis_code.Governance.Rules.Permits.{Permitted, judge_command-permits}

abbrev reset : Json
reset = str "git reset --har"

abbrev reset_read : LexResult
reset_read = record {
  is_ok = true;
  argv = "git" ∷ "reset" ∷ "--har" ∷ [];
  reason = "ok";
  has_metastructure = false;
}

reset_is_read : lex_command reset ≡ ok reset_read
unfolding lex_command
reset_is_read = refl

git_listed : mem_text "git" default_governance.command_allowlist ≡ true
unfolding mem_text
git_listed = refl

judge-strictest_example :
    (v : Verdict) × (judge_command reset default_governance.command_allowlist default_command_rules
      ≡ ok v)
    × (severity v.decision
        ≡ strictest (norm_argv0 "git") ("reset" ∷ "--har" ∷ []) default_command_rules)
judge-strictest_example =
    judge-strictest reset default_governance.command_allowlist default_command_rules reset_read
      "git" ("reset" ∷ "--har" ∷ []) reset_is_read refl refl git_listed

abbrev commit : Json
commit = str "git commit -m 'a b'"

abbrev committed : Verdict
committed = record {
  decision = require_approval;
  rule_id = "CMD_RULE_3";
  reason = "rule matched: git ['commit']";
}

commit_judged :
    judge_command commit default_governance.command_allowlist default_command_rules ≡ ok committed
unfolding judge_command lex_command mem_text norm_argv0 Rules.rule_matches Rules.pick Rules.consider
    Rules.verdict_of
commit_judged = refl

judge_command-permits_example :
    Permitted commit default_governance.command_allowlist default_command_rules committed
judge_command-permits_example =
    judge_command-permits commit default_governance.command_allowlist default_command_rules
      committed commit_judged (λ e. cc)

-- two rules, and the same two the other way round
abbrev push_rule : CommandRule
push_rule = command_rule "git" ("push" ∷ []) deny

abbrev commit_rule : CommandRule
commit_rule = command_rule "git" ("commit" ∷ []) require_approval

abbrev in_order : List CommandRule
in_order = push_rule ∷ commit_rule ∷ []

abbrev reversed : List CommandRule
reversed = commit_rule ∷ push_rule ∷ []

abbrev by_rule : String → Verdict
by_rule rule_id = record {
  decision = require_approval;
  rule_id = rule_id;
  reason = "rule matched: git ['commit']";
}

in_order_judged : judge_command commit ("git" ∷ []) in_order ≡ ok (by_rule "CMD_RULE_1")
unfolding judge_command lex_command mem_text norm_argv0 Rules.rule_matches Rules.pick Rules.consider
    Rules.verdict_of
in_order_judged = refl

reversed_judged : judge_command commit ("git" ∷ []) reversed ≡ ok (by_rule "CMD_RULE_0")
unfolding judge_command lex_command mem_text norm_argv0 Rules.rule_matches Rules.pick Rules.consider
    Rules.verdict_of
reversed_judged = refl
