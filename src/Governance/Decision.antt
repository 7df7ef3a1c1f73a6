-- ===== src/Governance/Decision.antt =====
-- The four decisions of aegiscode/config/schema.py and the verdicts of
-- aegiscode/governance/engine.py.
use aegis_code.Prelude.{
  ℕ, String, Bool, true, false, List, [], ◌∷◌, Result, ok, ◌>>=◌, if◌then◌else◌,
}
use aegis_code.Json.{Fields}

pub data Decision : Type 0 where
  allow allow_with_audit require_approval deny : Decision

pub Decision-discrete : Discrete Decision
Decision-discrete = hlevel

-- decision.value
abbrev pub value : Decision → String
value allow = "ALLOW"
value allow_with_audit = "ALLOW_WITH_AUDIT"
value require_approval = "REQUIRE_APPROVAL"
value deny = "DENY"

-- _SEVERITY of command_rules.py
abbrev pub severity : Decision → ℕ
severity allow = 0
severity allow_with_audit = 1
severity require_approval = 2
severity deny = 3

-- d == Decision.DENY, d == Decision.REQUIRE_APPROVAL
abbrev pub is_deny : Decision → Bool
is_deny deny = true
is_deny _ = false

abbrev pub is_require_approval : Decision → Bool
is_require_approval require_approval = true
is_require_approval _ = false

pub record Verdict : Type 0 where
  pub decision : Decision
  pub rule_id : String
  pub reason : String

-- aegiscode/protocol/action.py; the two optional texts are read by no modelled code
pub record Action : Type 0 where
  pub tool : String
  pub arguments : Fields

-- `matcher` is a callable that may raise
pub record PolicyRule : Type 0 where
  pub rule_id : String
  pub matcher : Action → Result Bool
  pub decision : Decision
  pub reason : String

pub record PolicyEngine : Type 0 where
  pub rules : List PolicyRule
  pub default_fn : Action → Result Verdict

evaluate_rules : List PolicyRule → (Action → Result Verdict) → Action → Result Verdict
evaluate_rules [] default_fn action = default_fn action
evaluate_rules (r ∷ rules) default_fn action =
    let rest = evaluate_rules rules default_fn action in
    r.matcher action >>= λ hit.
    if hit
    then ok (record { decision = r.decision; rule_id = r.rule_id; reason = r.reason })
    else rest

-- PolicyEngine.evaluate; no rule of the program reads the context
unfoldable pub evaluate : PolicyEngine → Action → Result Verdict
unfolding evaluate_rules
evaluate e action = evaluate_rules e.rules e.default_fn action
