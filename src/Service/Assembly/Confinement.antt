-- ===== src/Service/Assembly/Confinement.antt =====
-- A whole run of the harness of aegiscode/service/assembly.py whose tools only read and write files.
mod Samples
use aegis_code.Prelude.{
  ◌≡◌, ◌≢◌, refl, sym, subst, ap, ◌∙◌, ◌⊎◌, inl, inr, ℕ, ◌≤◌, String, Bool, true, false, List, [],
  ◌∷◌, Option, none, some, Result, ok, err, length, drop, arith, Bool-cases, eq_iff, ◌==◌,
  if◌then◌else◌,
}
use aegis_code.Prelude.Text.{mem_text}
use aegis_code.Prelude.Text.Lines.{encode}
use aegis_code.Json.{Json, Fields, str, get, get_or}
use aegis_code.Context.{Message}
use aegis_code.Config.{AegisConfig}
use aegis_code.Tools.{Tool, Registry, Ctx, get_tool}
use aegis_code.Tools.Os.{Os}
use aegis_code.Tools.Files.{
  write_file, read_file, list_files, search_text, write_file_tool, write_through,
}
use aegis_code.Tools.Files.Writes.{Written, write_file-Written}
use aegis_code.Tools.Commands.{finish}
use aegis_code.Governance.Decision.{Action, Verdict, allow, allow_with_audit, evaluate}
use aegis_code.Governance.Dispatcher.Gates.{FencesPass}
use aegis_code.Governance.Factory.{build_dispatcher}
use aegis_code.Governance.Factory.Tiers.{InDirs, permitted_write-InDirs, registry-built}
use aegis_code.Loop.Termination.{Reason}
use aegis_code.Loop.Harness.{Harness, Loop, MemoryRow}
use aegis_code.Loop.Turn.{run}
use aegis_code.Loop.Turn.Keeps.{run-Keeps}
use aegis_code.Loop.Turn.Kept.{PartsKeep}
use aegis_code.Service.Assembly.{
  Given, Client, build_registry, make_ctx, final_verifier, harness_factory,
}
use aegis_code.Service.Assembly.Registered.{all_tools, build_registry-enabled}
use aegis_code.Service.Assembly.Idle.{some_inj, IsIdle, registered-IsIdle}

module _ {W : Type 0} (g : Given W) (config : AegisConfig) (client : Client)
    (task_id workspace : String) (P : W → Type 0) where
  -- the harness without an approver and without a flag of cancellation
  abbrev pub alone : Harness W
  alone = harness_factory g config client task_id workspace none none

  abbrev pub ctx : Ctx
  ctx = make_ctx config task_id workspace

  -- What is outside of the tools keeps the property, and so does a write that the fences pass, whose
  -- path begins with a directory of the allowlist and whose content fits in write_max_bytes.
  pub record SurroundingsKeep : Type 0 where
    pub complete : (messages : List Message) (w : W) → P w → P (g.complete client messages w).1
    pub elapsed : (w : W) → P w → P (g.elapsed w).1
    pub retrieve : (project : String) (top_k : ℕ) (w : W) → P w → P (g.retrieve project top_k w).1
    pub verifier : (w : W) → P w → P (final_verifier g.os config workspace w).1
    pub write :
        (action : Action) (path content : String) (w : W)
        → action.tool ≡ "write_file"
        → get "path" action.arguments ≡ some (str path)
        → FencesPass (build_dispatcher config (build_registry g.os config) g.files) action ctx w
        → InDirs (str path) config.governance.write_allowlist_dirs
        → length (encode content) ≤ config.tools.write_max_bytes
        → P w
        → P (write_through g.os (ctx.resolve path) (encode content) w).1

  module _ (k : SurroundingsKeep) (no_command : mem_text "run_command" config.tools.enabled ≡ false)
      (no_tests : mem_text "run_tests" config.tools.enabled ≡ false)
      (strict : config.governance.decisions.write ≢ allow)
      (strict' : config.governance.decisions.write ≢ allow_with_audit) where
    path-InDirs :
        (arguments : Fields) (path : String)
        → get "path" arguments ≡ some (str path)
        → InDirs (get_or "path" (str "") arguments) config.governance.write_allowlist_dirs
        → InDirs (str path) config.governance.write_allowlist_dirs
    unfolding get
    path-InDirs arguments path is found =
        subst (λ (v : Json). InDirs v config.governance.write_allowlist_dirs)
          (ap (λ (o : Option Json). elim o [ none ↦ str "" | some v ↦ v ]) is) found

    write-keeps :
        (action : Action) (v : Verdict) (w : W)
        → action.tool ≡ "write_file"
        → FencesPass (build_dispatcher config (build_registry g.os config) g.files) action ctx w
        → evaluate (build_dispatcher config (build_registry g.os config) g.files).engine action
          ≡ ok v
        → (v.decision ≡ allow) ⊎ (v.decision ≡ allow_with_audit)
        → P w
        → P (write_file g.os action.arguments ctx w).1
    unfolding make_ctx
    write-keeps action v w is fences judged permits p =
        elim (write_file-Written g.os ctx w action.arguments) [
          | inl same ↦ rw same p
          | inr written ↦
              let found =
                permitted_write-InDirs config (build_registry g.os config) g.files action ctx w v is
                  strict strict' judged permits in
              subst P (sym written.only) (
                k.write action written.path written.content w is written.at_path fences
                  (path-InDirs action.arguments written.path written.at_path found) written.fits p)
        ]

    idle-keeps :
        (action : Action) (tool : Tool W) (w : W)
        → IsIdle tool
        → P w
        → P (tool.run action.arguments ctx w).1
    unfolding IsIdle
    idle-keeps action tool w idle p = rw (idle action.arguments ctx w) p

    tool-keeps :
        (action : Action) (tool : Tool W) (v : Verdict) (w : W)
        → get_tool action.tool
            (build_dispatcher config (build_registry g.os config) g.files).registry
          ≡ some tool
        → FencesPass (build_dispatcher config (build_registry g.os config) g.files) action ctx w
        → evaluate (build_dispatcher config (build_registry g.os config) g.files).engine action
          ≡ ok v
        → (v.decision ≡ allow) ⊎ (v.decision ≡ allow_with_audit)
        → P w
        → P (tool.run action.arguments ctx w).1
    tool-keeps action tool v w registered fences judged permits p =
        let known =
          sym (
            ap (λ (r : Registry W). get_tool action.tool r)
              (registry-built config (build_registry g.os config) g.files action ctx w))
          ∙ registered in
        elim (registered-IsIdle g.os config no_command no_tests action.tool tool known) [
          | inl writes ↦
              subst (λ (t : Tool W). P (t.run action.arguments ctx w).1) (sym writes.1)
                (write-keeps action v w writes.0 fences judged permits p)
          | inr idle ↦ idle-keeps action tool w idle p
        ]

    alone-keeps : PartsKeep alone P
    unfolding harness_factory
    alone-keeps = record {
      complete = k.complete;
      elapsed = k.elapsed;
      final_verifier = k.verifier;
      resolver = λ f has action v w p. absurd (ground (arith, has));
      cancelling = λ f has w p. absurd (ground (arith, has));
      memory = λ f has project top_k w p.
          subst (λ (r : String → ℕ → W → Result (List MemoryRow) × W). P (r project top_k w).1)
            (some_inj has) (k.retrieve project top_k w p);
      permitted = tool-keeps;
      after_approval = λ f action tool w has registered fences p. absurd (ground (arith, has));
    }

    -- In the assembled harness without an approver and without a flag of cancellation, where
    -- run_command and run_tests are not enabled and the write tier is neither ALLOW nor
    -- ALLOW_WITH_AUDIT: a property that the surroundings keep, and that every write keeps which
    -- passes the fences, lies in a directory of the allowlist and fits in write_max_bytes, holds
    -- after any run that began with it, whatever the model proposed.
    pub run-Confined :
        (fuel : ℕ) (task : String) (w : W) (reason : Reason) (s : Loop W)
        → P w
        → run alone fuel task w ≡ some (reason, s)
        → P s.world
    run-Confined = run-Keeps alone P alone-keeps
