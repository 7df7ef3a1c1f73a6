-- ===== src/Governance/Rules/Inversion.antt =====
-- From a verdict of aegiscode/governance/command_rules.py back to the command.
use aegis_code.Prelude.{
  ◌≡◌, refl, String, true, false, List, arith, Result, ok, err, ◌⊎◌, inl, inr, Bool-cases,
}
use aegis_code.Json.{Json}
use aegis_code.Governance.Decision.{deny, Verdict}
use aegis_code.Governance.Lexer.{LexResult, lex_command}
use aegis_code.Governance.Rules.{CommandRule, judge_argv, judge_command}

abbrev struct_verdict : LexResult → Verdict
struct_verdict lr = record { decision = deny; rule_id = "CMD_STRUCT"; reason = lr.reason }

-- The two ways to a verdict, once the command is read.
abbrev pub Judged : LexResult → List String → List CommandRule → Verdict → Type 0
Judged lr allowlist rules v =
    (lr.is_ok ≡ false) × (v ≡ struct_verdict lr)
    ⊎ (lr.is_ok ≡ true) × (judge_argv lr.argv allowlist rules ≡ ok v)

Judged-read :
    (r : Result LexResult) (command : Json) (allowlist : List String) (rules : List CommandRule)
    (v : Verdict)
    → lex_command command ≡ r
    → judge_command command allowlist rules ≡ ok v
    → (lr : LexResult) × (lex_command command ≡ ok lr) × Judged lr allowlist rules v
unfolding judge_command
Judged-read (err e) command allowlist rules v read h = ground arith
Judged-read (ok lr) command allowlist rules v read h = elim (Bool-cases lr.is_ok) [
  | inl good ↦ (lr, read, inr (good, ground arith))
  | inr bad ↦ (lr, read, inl (bad, ground arith))
]

pub judge_command-inv :
    (command : Json) (allowlist : List String) (rules : List CommandRule) (v : Verdict)
    → judge_command command allowlist rules ≡ ok v
    → (lr : LexResult) × (lex_command command ≡ ok lr) × Judged lr allowlist rules v
judge_command-inv command allowlist rules v h = Judged-read _ command allowlist rules v refl h
