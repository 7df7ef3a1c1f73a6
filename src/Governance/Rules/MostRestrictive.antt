-- ===== src/Governance/Rules/MostRestrictive.antt =====
-- The loop over the rules in `judge_command` of aegiscode/governance/command_rules.py.
use Prim.Native.Nat.{max}
use mathlib.Core.List.{Perm, Permᴰ}
use mathlib.Core.Logic.{∥∥₁_elim}
use native.Mathlib.Nat.{ℕ_set}
use aegis_code.Prelude.{
  ℕ, ◌+◌, ◌≡◌, refl, ap, sym, ◌∙◌, String, true, List, [], ◌∷◌, Option, none, some, arith, ok,
  if◌then◌else◌, inl, inr,
}
use aegis_code.Prelude.Text.{mem_text}
use aegis_code.Json.{Json}
use aegis_code.Governance.Decision.{Decision, severity, Verdict}
use aegis_code.Governance.Lexer.{LexResult, lex_command}
use aegis_code.Governance.Rules.Inversion.{Judged, judge_command-inv}
use aegis_code.Governance.Rules.{
  CommandRule, Winner, rule_matches, consider, pick, verdict_of, norm_argv0, judge_argv,
  judge_command,
}

abbrev level : Option Winner → ℕ
level none = 0
level (some w) = w.severity_of

-- The severities of the matching rules, with no order of evaluation in it.
abbrev pub strictest : String → List String → List CommandRule → ℕ
strictest norm args [] = 0
strictest norm args (r ∷ rs) =
    max (if rule_matches r norm args then severity r.decision else 0) (strictest norm args rs)

level-consider :
    (norm : String) (args : List String) (i : ℕ) (r : CommandRule) (w : Option Winner)
    → level (consider norm args i r w)
      ≡ max (level w) (if rule_matches r norm args then severity r.decision else 0)
unfolding consider
level-consider norm args i r w = ground arith

level-pick :
    (norm : String) (args : List String) (i : ℕ) (rs : List CommandRule) (w : Option Winner)
    → level (pick norm args i rs w) ≡ max (level w) (strictest norm args rs)
unfolding pick
level-pick norm args i [] w = omega arith
level-pick norm args i (r ∷ rs) w = omega (
  arith,
  level-consider norm args i r w,
  level-pick norm args (i + 1) rs (consider norm args i r w),
)

-- The winner's severity is that of its decision.
abbrev Labelled : Option Winner → Type 0
Labelled none = Unit
Labelled (some w) = w.severity_of ≡ severity w.decision

consider-Labelled :
    (norm : String) (args : List String) (i : ℕ) (r : CommandRule) (w : Option Winner)
    → Labelled w
    → Labelled (consider norm args i r w)
unfolding consider
consider-Labelled norm args i r none h = ground arith
consider-Labelled norm args i r (some w) h = ground arith

pick-Labelled :
    (norm : String) (args : List String) (i : ℕ) (rs : List CommandRule) (w : Option Winner)
    → Labelled w
    → Labelled (pick norm args i rs w)
unfolding pick
pick-Labelled norm args i [] w h = h
pick-Labelled norm args i (r ∷ rs) w h =
    pick-Labelled norm args (i + 1) rs (consider norm args i r w)
      (consider-Labelled norm args i r w h)

severity-verdict_of :
    (argv0 : String) (w : Option Winner)
    → Labelled w
    → severity (verdict_of argv0 w).decision ≡ level w
unfolding verdict_of
severity-verdict_of argv0 none h = refl
severity-verdict_of argv0 (some w) h = sym h

-- A command that is read and whose program is on the allowlist gets a verdict whose severity is the
-- greatest severity among the rules that match it, and that of ALLOW if none does.
pub judge-strictest :
    (command : Json) (allowlist : List String) (rules : List CommandRule) (lr : LexResult)
    (argv0 : String) (args : List String)
    → lex_command command ≡ ok lr
    → lr.is_ok ≡ true
    → lr.argv ≡ argv0 ∷ args
    → mem_text argv0 allowlist ≡ true
    → (v : Verdict) × (judge_command command allowlist rules ≡ ok v)
      × (severity v.decision ≡ strictest (norm_argv0 argv0) args rules)
unfolding judge_command
judge-strictest command allowlist rules lr argv0 args read is_ok argv listed =
    let w = pick (norm_argv0 argv0) args 0 rules none in
    (
      verdict_of argv0 w,
      rw (read, is_ok, argv, listed) refl,
      severity-verdict_of argv0 w (pick-Labelled (norm_argv0 argv0) args 0 rules none tt)
          ∙ level-pick (norm_argv0 argv0) args 0 rules none
          ∙ omega arith,
    )

severity_inj : (d e : Decision) → severity d ≡ severity e → d ≡ e
severity_inj d e h = ground arith

strictest-permᴰ :
    (norm : String) (args : List String) {rs ts : List CommandRule}
    → Permᴰ rs ts
    → strictest norm args rs ≡ strictest norm args ts
strictest-permᴰ norm args Permᴰ.nil = refl
strictest-permᴰ norm args (Permᴰ.cons {l₁ = xs} {l₂ = ys} e p) =
    rw e (omega (arith, strictest-permᴰ norm args p))
strictest-permᴰ norm args (Permᴰ.swap e f) = rw (e, f) (omega arith)
strictest-permᴰ norm args (Permᴰ.trans p q) =
    strictest-permᴰ norm args p ∙ strictest-permᴰ norm args q

strictest-perm :
    (norm : String) (args : List String) {rs ts : List CommandRule}
    → Perm rs ts
    → strictest norm args rs ≡ strictest norm args ts
strictest-perm norm args p = ∥∥₁_elim p (ℕ_set _ _) (strictest-permᴰ norm args)

-- What severity a split command is due.
abbrev pub due : List String → List String → List CommandRule → ℕ
due [] allowlist rules = 3
due (argv0 ∷ args) allowlist rules =
    if mem_text argv0 allowlist then strictest (norm_argv0 argv0) args rules else 3

pub judge_argv-due :
    (argv allowlist : List String) (rules : List CommandRule) (v : Verdict)
    → judge_argv argv allowlist rules ≡ ok v
    → severity v.decision ≡ due argv allowlist rules
unfolding judge_argv
judge_argv-due [] allowlist rules v h = cc
judge_argv-due (argv0 ∷ args) allowlist rules v h = ground (
  arith,
  severity-verdict_of argv0 (pick (norm_argv0 argv0) args 0 rules none)
      (pick-Labelled (norm_argv0 argv0) args 0 rules none tt),
  level-pick (norm_argv0 argv0) args 0 rules none,
)

due-perm :
    (argv allowlist : List String) {rules others : List CommandRule}
    → Perm rules others
    → due argv allowlist rules ≡ due argv allowlist others
due-perm [] allowlist p = refl
due-perm (argv0 ∷ args) allowlist p =
    ap (λ n. if mem_text argv0 allowlist then n else 3) (strictest-perm (norm_argv0 argv0) args p)

-- What severity a command that is read is due.
abbrev due_read : LexResult → List String → List CommandRule → ℕ
due_read lr allowlist rules = if lr.is_ok then due lr.argv allowlist rules else 3

Judged-due :
    (lr : LexResult) (allowlist : List String) (rules : List CommandRule) (v : Verdict)
    → Judged lr allowlist rules v
    → severity v.decision ≡ due_read lr allowlist rules
Judged-due lr allowlist rules v (inl (bad, e)) = rw (bad, e)
Judged-due lr allowlist rules v (inr (good, e)) =
    rw good (judge_argv-due lr.argv allowlist rules v e)

due_read-perm :
    (lr : LexResult) (allowlist : List String) {rules others : List CommandRule}
    → Perm rules others
    → due_read lr allowlist rules ≡ due_read lr allowlist others
due_read-perm lr allowlist p = ap (λ n. if lr.is_ok then n else 3) (due-perm lr.argv allowlist p)

ok_inj : {A : Type 0} {a b : A} → ok a ≡ ok b → a ≡ b
ok_inj h = cc

-- The order in which the rules are listed does not change the decision on any command.
pub judge_command-perm :
    (command : Json) (allowlist : List String) (rules others : List CommandRule) (v w : Verdict)
    → Perm rules others
    → judge_command command allowlist rules ≡ ok v
    → judge_command command allowlist others ≡ ok w
    → v.decision ≡ w.decision
judge_command-perm command allowlist rules others v w p h k =
    let (lr, read, judged) = judge_command-inv command allowlist rules v h in
    let (lr', read', judged') = judge_command-inv command allowlist others w k in
    let same : lr ≡ lr' = ok_inj (sym read ∙ read') in
    severity_inj _ _ (
      Judged-due lr allowlist rules v judged
      ∙ due_read-perm lr allowlist p
      ∙ ap (λ l. due_read l allowlist others) same
      ∙ sym (Judged-due lr' allowlist others w judged'))
