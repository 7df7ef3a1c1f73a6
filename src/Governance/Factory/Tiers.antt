-- ===== src/Governance/Factory/Tiers.antt =====
-- The default tiers of aegiscode/governance/factory.py, alone and behind the dispatcher.
use aegis_code.Prelude.{
  ◌≡◌, ◌≢◌, refl, sym, ap, ◌∙◌, String, true, List, [], ◌∷◌, Option, none, some, map, ok, eq_iff,
  ◌⊎◌, inl, inr, arith, Bool-cases,
}
use aegis_code.Prelude.Text.{starts_with, mem_text}
use aegis_code.Prelude.Text.Repr.{repr}
use aegis_code.Json.{Json, str, get_or}
use aegis_code.Tools.{Registry, Ctx}
use aegis_code.Config.{AegisConfig, GovernanceConfig, DefaultDecisions}
use aegis_code.Governance.Decision.{
  Decision, allow, allow_with_audit, deny, Verdict, Action, evaluate,
}
use aegis_code.Governance.Rules.{judge_command}
use aegis_code.Governance.Rules.Permits.{Permitted, judge_command-permits}
use aegis_code.Governance.Fence.{Files}
use aegis_code.Governance.Dispatcher.{Dispatched, dispatch}
use aegis_code.Governance.Dispatcher.Gates.{FencesPass}
use aegis_code.Governance.Dispatcher.Runs.{dispatch-Guarded}
use aegis_code.Governance.Factory.{
  with_slash, first_dir, write_denied, write_in, judge_write, default_fn, build_engine,
  build_dispatcher,
}

-- A directory of the list begins the path, a whole component at the end.
pub record InDirs (path : Json) (dirs : List String) : Type 0 where
  pub text : String
  pub is_text : path ≡ str text
  pub dir : String
  pub listed : mem_text dir dirs ≡ true
  pub begins : starts_with text (with_slash dir) ≡ true

mem_text_here : (x : String) (xs : List String) → mem_text x (x ∷ xs) ≡ true
unfolding mem_text
mem_text_here x xs = ground (arith, eq_iff x x)

mem_text_there :
    (x y : String) (xs : List String) → mem_text x xs ≡ true → mem_text x (y ∷ xs) ≡ true
unfolding mem_text
mem_text_there x y xs h = ground arith

first_dir-found :
    (path dir : String) (dirs : List String)
    → first_dir path (map with_slash dirs) ≡ some dir
    → (d : String) × (mem_text d dirs ≡ true) × (starts_with path (with_slash d) ≡ true)
unfolding first_dir
first_dir-found path dir [] h = cc
first_dir-found path dir (d ∷ ds) h = elim (Bool-cases (starts_with path (with_slash d))) [
  | inl begins ↦ (d, mem_text_here d ds, begins)
  | inr not_here ↦
      let (e, listed, begins) = first_dir-found path dir ds (ground arith) in
      (e, mem_text_there e d ds listed, begins)
]

module _ (dd : DefaultDecisions) (strict : dd.write ≢ allow) where
  write_in-found :
      (path : String) (dirs : List String) (o : Option String)
      → first_dir path (map with_slash dirs) ≡ o
      → (write_in dd path o).decision ≡ allow
      → InDirs (str path) dirs
  unfolding write_in write_denied
  write_in-found path dirs none e h = absurd (strict h)
  write_in-found path dirs (some dir) e h =
      let (d, listed, begins) = first_dir-found path dir dirs e in
      record { text = path; is_text = refl; dir = d; listed = listed; begins = begins }

  judge_write-InDirs :
      (dirs : List String) (path : Json) (v : Verdict)
      → judge_write dd (map with_slash dirs) path ≡ ok v
      → v.decision ≡ allow
      → InDirs path dirs
  unfolding judge_write write_denied
  judge_write-InDirs dirs (str path) v h e =
      write_in-found path dirs _ refl (ap (λ (u : Verdict). u.decision) (ok_inj h) ∙ e)
    where
      ok_inj : {a b : Verdict} → ok a ≡ ok b → a ≡ b
      ok_inj p = cc
  judge_write-InDirs [] path v h e = absurd (strict (ground arith))
  judge_write-InDirs (d ∷ ds) path v h e = cc

judge_write-audit :
    (dd : DefaultDecisions) (dirs : List String) (path : Json) (v : Verdict)
    → judge_write dd dirs path ≡ ok v
    → v.decision ≡ allow_with_audit
    → dd.write ≡ allow_with_audit
unfolding judge_write write_in write_denied
judge_write-audit dd dirs (str path) v h e = ground arith
judge_write-audit dd [] path v h e = ground arith
judge_write-audit dd (d ∷ ds) path v h e = cc

permits_not_deny : {d : Decision} → (d ≡ allow) ⊎ (d ≡ allow_with_audit) → d ≢ deny
permits_not_deny p e = ground arith

default_fn-write :
    (g : GovernanceConfig) (action : Action)
    → action.tool ≡ "write_file"
    → default_fn g action
      ≡ judge_write g.decisions
          (map with_slash g.write_allowlist_dirs)
          (get_or "path" (str "") action.arguments)
unfolding default_fn mem_text
default_fn-write g action e = rw e refl

pub default_fn-search :
    (g : GovernanceConfig) (action : Action)
    → action.tool ≡ "search_text"
    → g.decisions.readonly ≡ allow
    → default_fn g action
      ≡ ok (record {
        decision = allow;
        rule_id = "TIER_READONLY";
        reason = "readonly tool 'search_text' → ALLOW";
      })
unfolding default_fn mem_text repr
default_fn-search g action e r = rw (e, r) refl

default_fn-command :
    (g : GovernanceConfig) (action : Action)
    → action.tool ≡ "run_command"
    → default_fn g action
      ≡ judge_command
          (get_or "command" (str "") action.arguments)
          g.command_allowlist
          g.command_rules
unfolding default_fn
default_fn-command g action e = rw e refl

module _ {W : Type 0} (config : AegisConfig) (registry : Registry W) (files : W → Files)
    (action : Action) (ctx : Ctx) (w : W) where
  abbrev built : Dispatched W
  built = dispatch (build_dispatcher config registry files) action ctx w

  pub evaluate-built :
      evaluate (build_dispatcher config registry files).engine action
      ≡ default_fn config.governance action
  unfolding evaluate build_dispatcher build_engine
  evaluate-built = refl

  pub registry-built : (build_dispatcher config registry files).registry ≡ registry
  unfolding build_dispatcher
  registry-built = refl

  abbrev Fences : Type 0
  Fences = FencesPass (build_dispatcher config registry files) action ctx w

  pub permitted_write-InDirs :
      (v : Verdict)
      → action.tool ≡ "write_file"
      → config.governance.decisions.write ≢ allow
      → config.governance.decisions.write ≢ allow_with_audit
      → evaluate (build_dispatcher config registry files).engine action ≡ ok v
      → (v.decision ≡ allow) ⊎ (v.decision ≡ allow_with_audit)
      → InDirs (get_or "path" (str "") action.arguments) config.governance.write_allowlist_dirs
  permitted_write-InDirs v is strict strict' e permits =
      let judged = sym (default_fn-write config.governance action is) ∙ sym evaluate-built ∙ e in
      elim permits [
        | inl allowed ↦
            judge_write-InDirs config.governance.decisions strict
              config.governance.write_allowlist_dirs _ v judged allowed
        | inr audited ↦
            absurd (strict' (judge_write-audit config.governance.decisions _ _ v judged audited))
      ]

  -- If the write tier is neither ALLOW nor ALLOW_WITH_AUDIT, a write_file that touches the world has
  -- passed the fences, and its path begins with a directory of the allowlist and a slash.
  pub dispatch-write_file :
      action.tool ≡ "write_file"
      → config.governance.decisions.write ≢ allow
      → config.governance.decisions.write ≢ allow_with_audit
      → (built.1 ≡ w)
        ⊎ Fences
          × InDirs (get_or "path" (str "") action.arguments) config.governance.write_allowlist_dirs
  dispatch-write_file is strict strict' =
      elim (dispatch-Guarded (build_dispatcher config registry files) action ctx w) [
        | inl same ↦ inl same
        | inr ran ↦
            inr (ran.fences, permitted_write-InDirs ran.v is strict strict' ran.judged ran.permits)
      ]

  -- What is so of a run_command that touched the world: the verdict is the command judge's, it
  -- permits, and it is as strict as each rule that matches.
  pub record CommandRan : Type 0 where
    pub fences : Fences
    pub v : Verdict
    pub judged :
        judge_command
          (get_or "command" (str "") action.arguments)
          config.governance.command_allowlist
          config.governance.command_rules
        ≡ ok v
    pub permits : (v.decision ≡ allow) ⊎ (v.decision ≡ allow_with_audit)
    pub permitted :
        Permitted
          (get_or "command" (str "") action.arguments)
          config.governance.command_allowlist
          config.governance.command_rules
          v

  -- A run_command that touches the world has passed the fences, and the command judge has allowed
  -- it, with or without audit: its text is free of shell metastructure, its program is on the
  -- allowlist, and no rule that matches it asks for more than that verdict.
  pub dispatch-run_command : action.tool ≡ "run_command" → (built.1 ≡ w) ⊎ CommandRan
  dispatch-run_command is =
      elim (dispatch-Guarded (build_dispatcher config registry files) action ctx w) [
        | inl same ↦ inl same
        | inr ran ↦
            let judged =
              sym (default_fn-command config.governance action is)
              ∙ sym evaluate-built
              ∙ ran.judged in
            inr (record {
              fences = ran.fences;
              v = ran.v;
              judged = judged;
              permits = ran.permits;
              permitted =
                  judge_command-permits _ config.governance.command_allowlist
                    config.governance.command_rules ran.v judged (permits_not_deny ran.permits);
            })
      ]
