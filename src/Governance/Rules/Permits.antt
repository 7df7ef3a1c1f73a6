-- ===== src/Governance/Rules/Permits.antt =====
-- The commands that aegiscode/governance/command_rules.py does not deny.
use aegis_code.Prelude.{
  ◌≡◌, ◌≢◌, ◌≤◌, String, true, List, [], ◌∷◌, arith, ok, All, inl, inr, ap, Bool-cases, ℕ,
}
use aegis_code.Prelude.Text.{mem_text}
use aegis_code.Json.{Json}
use aegis_code.Governance.Decision.{deny, severity, Verdict}
use aegis_code.Governance.Lexer.Reads.{Reads, lex_command-Reads}
use aegis_code.Governance.Rules.Inversion.{judge_command-inv}
use aegis_code.Governance.Rules.MostRestrictive.{strictest, judge_argv-due}
use aegis_code.Governance.Rules.{CommandRule, rule_matches, norm_argv0, judge_argv, judge_command}

-- Every rule that matches is at most as strict as `bound`.
abbrev pub Covered : String → List String → ℕ → List CommandRule → Type 0
Covered norm args bound = All (λ r. rule_matches r norm args ≡ true → severity r.decision ≤ bound)

strictest-Covered :
    (norm : String) (args : List String) (bound : ℕ) (rules : List CommandRule)
    → strictest norm args rules ≤ bound
    → Covered norm args bound rules
strictest-Covered norm args bound [] h = tt
strictest-Covered norm args bound (r ∷ rs) h =
    (λ hit. ground arith, strictest-Covered norm args bound rs (omega arith))

-- What a permitted command has to satisfy.
pub record Permitted (command : Json) (allowlist : List String) (rules : List CommandRule)
    (v : Verdict) : Type 0 where
  pub argv0 : String
  pub args : List String
  pub reads : Reads command (argv0 ∷ args)
  pub listed : mem_text argv0 allowlist ≡ true
  pub covered : Covered (norm_argv0 argv0) args (severity v.decision) rules

judge_argv-Permitted :
    (command : Json) (argv allowlist : List String) (rules : List CommandRule) (v : Verdict)
    → Reads command argv
    → judge_argv argv allowlist rules ≡ ok v
    → v.decision ≢ deny
    → Permitted command allowlist rules v
judge_argv-Permitted command [] allowlist rules v reads h ne = unfold judge_argv in (ground arith)
judge_argv-Permitted command (argv0 ∷ args) allowlist rules v reads h ne =
    elim (Bool-cases (mem_text argv0 allowlist)) [
      | inl listed ↦ record {
        argv0 = argv0;
        args = args;
        reads = reads;
        listed = listed;
        covered =
            strictest-Covered (norm_argv0 argv0) args (severity v.decision) rules
              (ground (arith, judge_argv-due (argv0 ∷ args) allowlist rules v h));
      }
      | inr missing ↦ unfold judge_argv in (ground arith)
    ]

-- A command whose verdict is not DENY is a text without shell metastructure, its program is on the
-- allowlist, and no rule that matches it asks for more than the verdict.
pub judge_command-permits :
    (command : Json) (allowlist : List String) (rules : List CommandRule) (v : Verdict)
    → judge_command command allowlist rules ≡ ok v
    → v.decision ≢ deny
    → Permitted command allowlist rules v
judge_command-permits command allowlist rules v h ne =
    let (lr, read, judged) = judge_command-inv command allowlist rules v h in
    elim judged [
      | inl (bad, e) ↦ absurd (ne (ap (λ (w : Verdict). w.decision) e))
      | inr (good, e) ↦
          judge_argv-Permitted command lr.argv allowlist rules v
            (lex_command-Reads command lr read good) e ne
    ]
