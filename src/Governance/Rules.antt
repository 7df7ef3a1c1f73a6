-- ===== src/Governance/Rules.antt =====
-- aegiscode/governance/command_rules.py
pub mod Inversion
pub mod MostRestrictive
pub mod Permits
use aegis_code.Prelude.{
  ℕ, ◌+◌, Char, code, String, map, nat_eq, Bool, true, false, not, ◌&&◌, ◌||◌, List, [], ◌∷◌,
  Option, none, some, Result, ok, err, index_error, ◌>>=◌, ◌==◌, ltb, leb, any, all, if◌then◌else◌,
}
use aegis_code.Prelude.Text.{◌+s◌, is_char, starts_with, before, mem_text, join_with, text_length}
use aegis_code.Prelude.Text.Repr.{repr, decimal}
use aegis_code.Json.{Json}
use aegis_code.Governance.Decision.{Decision, allow, deny, severity, Verdict}
use aegis_code.Governance.Lexer.{LexResult, lex_command}

-- config/schema.py, `CommandRule`
pub record CommandRule : Type 0 where
  pub argv0 : String
  pub args_contain : List String
  pub decision : Decision

-- an ASCII digit; `\d` of the source also matches the digits of other scripts
unfoldable pub is_digit : Char → Bool
is_digit c = leb b'0' (code c) && leb (code c) b'9'

-- [\d.]*$ where `$` also stands before a last line feed
version_tail : String → Bool
unfolding is_digit
version_tail String.[] = true
version_tail (String.◌∷◌ c String.[]) = is_digit c || is_char b'.' c || is_char 10 c
version_tail (String.◌∷◌ c (String.◌∷◌ d s)) =
    (is_digit c || is_char b'.' c) && version_tail (String.◌∷◌ d s)

-- \d[\d.]*$
version : String → Bool
unfolding version_tail
version String.[] = false
version (String.◌∷◌ c s) = is_digit c && version_tail s

unfoldable pub strip_prefix : String → String → Option String
strip_prefix s String.[] = some s
strip_prefix String.[] (String.◌∷◌ d p) = none
strip_prefix (String.◌∷◌ c s) (String.◌∷◌ d p) =
    if nat_eq (code c) (code d) then strip_prefix s p else none

-- _norm_argv0: python3 and python3.12 are `python`
unfoldable pub norm_argv0 : String → String
unfolding version strip_prefix
norm_argv0 argv0 = elim (strip_prefix argv0 "python") [
  | none ↦ argv0
  | some tail ↦ if version tail then "python" else argv0
]

-- _arg_matches
unfoldable pub arg_matches : String → String → Bool
unfolding starts_with before text_length
arg_matches tok arg =
    if not (starts_with tok "-")
    then arg == tok
    else if starts_with tok "--"
    then (let argname = before b'=' arg in
        if not (starts_with argname "--")
        then false
        else ltb 2 (text_length argname) && starts_with tok argname)
    else (arg == tok || (starts_with arg tok && not (starts_with arg "--")))

-- _rule_matches
unfoldable pub rule_matches : CommandRule → String → List String → Bool
unfolding arg_matches norm_argv0
rule_matches rule norm args =
    if not (norm_argv0 rule.argv0 == norm)
    then false
    else all (λ tok. any (arg_matches tok) args) rule.args_contain

-- `winner`: the severity, the rule's position, its decision and its tokens
pub record Winner : Type 0 where
  pub severity_of : ℕ
  pub index : ℕ
  pub decision : Decision
  pub contains : List String

abbrev beats : ℕ → Option Winner → Bool
beats sev none = true
beats sev (some w) = ltb w.severity_of sev

-- one round of the loop, at position `i`
unfoldable pub consider : String → List String → ℕ → CommandRule → Option Winner → Option Winner
consider norm args i rule winner =
    let sev = severity rule.decision in
    if rule_matches rule norm args && beats sev winner
    then some (record {
      severity_of = sev;
      index = i;
      decision = rule.decision;
      contains = rule.args_contain;
    })
    else winner

unfoldable pub pick : String → List String → ℕ → List CommandRule → Option Winner → Option Winner
pick norm args i [] winner = winner
pick norm args i (rule ∷ rules) winner =
    pick norm args (i + 1) rules (consider norm args i rule winner)

repr_texts : List String → String
repr_texts xs = "[" +s join_with ", " (map repr xs) +s "]"

-- the verdict on a command that was read and whose program is allowed
unfoldable pub verdict_of : String → Option Winner → Verdict
unfolding repr_texts repr join_with decimal
verdict_of argv0 none = record {
  decision = allow;
  rule_id = "CMD_DEFAULT_ALLOWED";
  reason = argv0 +s " allowed";
}
verdict_of argv0 (some w) = record {
  decision = w.decision;
  rule_id = "CMD_RULE_" +s decimal w.index;
  reason = "rule matched: " +s argv0 +s " " +s repr_texts w.contains;
}

pub judge_argv : List String → List String → List CommandRule → Result Verdict
judge_argv [] allowlist rules = err (index_error "list index out of range")
judge_argv (argv0 ∷ args) allowlist rules =
    if not (mem_text argv0 allowlist)
    then ok (record {
      decision = deny;
      rule_id = "CMD_ALLOWLIST";
      reason = argv0 +s " not in allowlist";
    })
    else ok (verdict_of argv0 (pick (norm_argv0 argv0) args 0 rules none))

-- judge_command
unfoldable pub judge_command : Json → List String → List CommandRule → Result Verdict
unfolding judge_argv
judge_command command allowlist rules = lex_command command >>= λ lr.
    if not lr.is_ok
    then ok (record { decision = deny; rule_id = "CMD_STRUCT"; reason = lr.reason })
    else judge_argv lr.argv allowlist rules
