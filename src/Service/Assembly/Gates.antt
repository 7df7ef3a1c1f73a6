-- ===== src/Service/Assembly/Gates.antt =====
-- The tools of aegiscode/tools behind the dispatcher that aegiscode/service/assembly.py builds.
use aegis_code.Prelude.{
  ◌≡◌, ◌≢◌, refl, sym, ap, ◌∙◌, ◌⊎◌, inl, inr, ℕ, String, true, List, some, ok, err, arith,
}
use aegis_code.Prelude.Text.{mem_text}
use aegis_code.Json.{str, get_or, has_key}
use aegis_code.Tools.{Ctx, Tool, ToolResult, Registry, get_tool}
use aegis_code.Tools.Os.{Os}
use aegis_code.Tools.Files.{
  write_file, write_file_tool, search_text, search_text_tool, search_result, hit_line,
}
use aegis_code.Tools.Files.Writes.{Written, write_file-Written}
use aegis_code.Tools.Files.Search.{HasLine, Listed, searching, search_text-found}
use aegis_code.Config.{AegisConfig}
use aegis_code.Governance.Decision.{Verdict, Action, allow, allow_with_audit}
use aegis_code.Governance.Fence.{Files}
use aegis_code.Governance.Dispatcher.{
  Dispatched, Executed, dispatch, finish_run, path_fence_reason, run_command_fence_reason,
}
use aegis_code.Governance.Dispatcher.Gates.{FencesPass}
use aegis_code.Governance.Dispatcher.Runs.{Ran, dispatch-Guarded, finish_run-world, dispatch-runs}
use aegis_code.Governance.Factory.{build_dispatcher}
use aegis_code.Governance.Factory.Tiers.{
  InDirs, dispatch-write_file, registry-built, evaluate-built, default_fn-search,
}
use aegis_code.Service.Assembly.{build_registry}
use aegis_code.Service.Assembly.Registered.{build_registry-enabled}

finish_run-result :
    {W : Type 0} (v : Verdict) (r : ToolResult) (x : Executed W)
    → x.0 ≡ ok r
    → (finish_run v x).0 ≡ ok (v, some r)
unfolding finish_run
finish_run-result v r (ok s, w) h = ground arith
finish_run-result v r (err e, w) h = absurd (ground arith)

abbrev pub search_action : String → Action
search_action q = record { tool = "search_text"; arguments = searching q }

abbrev search_verdict : Verdict
search_verdict = record {
  decision = allow;
  rule_id = "TIER_READONLY";
  reason = "readonly tool 'search_text' → ALLOW";
}

module _ {W : Type 0} (os : Os W) (config : AegisConfig) (files : W → Files) (ctx : Ctx)
    (w : W) where
  abbrev pub assembled : Action → Dispatched W
  assembled action =
      dispatch (build_dispatcher config (build_registry os config) files) action ctx w

  is_write_tool :
      (t : Tool W)
      → get_tool "write_file" (build_registry os config) ≡ some t
      → t ≡ write_file_tool os
  unfolding get_tool
  is_write_tool t h = ground (arith, (build_registry-enabled os config).1 "write_file")

  -- What is so of a write that touched the world.
  pub record Confined (action : Action) : Type 0 where
    pub fences : FencesPass (build_dispatcher config (build_registry os config) files) action ctx w
    pub in_dirs :
        InDirs (get_or "path" (str "") action.arguments) config.governance.write_allowlist_dirs
    pub written : Written os ctx w action.arguments
    pub world : (assembled action).1 ≡ (write_file os action.arguments ctx w).1

  run-world :
      (action : Action)
      → action.tool ≡ "write_file"
      → Ran
          (build_dispatcher config (build_registry os config) files)
          action
          ctx
          w
          (assembled action)
      → (assembled action).1 ≡ (write_file os action.arguments ctx w).1
  run-world action is ran =
      let registered =
        sym (
          ap (λ (r : Registry W). get_tool action.tool r)
            (registry-built config (build_registry os config) files action ctx w))
        ∙ ran.registered in
      let same = is_write_tool ran.tool (rw is at registered) in
      ap (λ (x : Dispatched W). x.1) ran.result
      ∙ finish_run-world ran.v (ran.tool.run action.arguments ctx w)
      ∙ ap (λ (t : Tool W). (t.run action.arguments ctx w).1) same

  ran_Confined :
      (action : Action)
      → (assembled action).1 ≡ (write_file os action.arguments ctx w).1
      → ((assembled action).1 ≡ w)
        ⊎ FencesPass (build_dispatcher config (build_registry os config) files) action ctx w
          × InDirs (get_or "path" (str "") action.arguments) config.governance.write_allowlist_dirs
      → ((write_file os action.arguments ctx w).1 ≡ w) ⊎ Written os ctx w action.arguments
      → ((assembled action).1 ≡ w) ⊎ Confined action
  ran_Confined action world (inl same) written = inl same
  ran_Confined action world (inr gated) (inl same) = inl (world ∙ same)
  ran_Confined action world (inr (fences, in_dirs)) (inr written) =
      inr (record { fences = fences; in_dirs = in_dirs; written = written; world = world })

  -- If the write tier is neither ALLOW nor ALLOW_WITH_AUDIT, a write_file through the assembled
  -- dispatcher that touches the world has passed the fences, its path begins with a directory of the
  -- allowlist, its content fits in write_max_bytes, and the world is what writing that content to
  -- that path makes of it.
  pub assembled-Confined :
      (action : Action)
      → action.tool ≡ "write_file"
      → config.governance.decisions.write ≢ allow
      → config.governance.decisions.write ≢ allow_with_audit
      → ((assembled action).1 ≡ w) ⊎ Confined action
  assembled-Confined action is strict strict' =
      elim (dispatch-Guarded (build_dispatcher config (build_registry os config) files) action ctx
        w) [
          | inl same ↦ inl same
          | inr ran ↦
              ran_Confined action (run-world action is ran)
                (dispatch-write_file config (build_registry os config) files action ctx w is strict
                  strict')
                (write_file-Written os ctx w action.arguments)
        ]

  is_search_tool :
      mem_text "search_text" config.tools.enabled ≡ true
      → get_tool "search_text" (build_registry os config) ≡ some (search_text_tool os)
  unfolding get_tool
  is_search_tool on = rw ((build_registry-enabled os config).1 "search_text", on)

  search_runs :
      (q : String)
      → mem_text "search_text" config.tools.enabled ≡ true
      → config.governance.decisions.readonly ≡ allow
      → (v : Verdict) × (assembled (search_action q)
          ≡ finish_run v (search_text os (searching q) ctx w))
  unfolding path_fence_reason run_command_fence_reason mem_text has_key
  search_runs q on readonly = (
    _,
    dispatch-runs (build_dispatcher config (build_registry os config) files) (search_action q) ctx w
        (search_text_tool os) search_verdict
        (ap (λ (r : Registry W). get_tool "search_text" r)
            (registry-built config (build_registry os config) files (search_action q) ctx w)
          ∙ is_search_tool on)
        refl refl
        (evaluate-built config (build_registry os config) files (search_action q) ctx w
          ∙ default_fn-search config.governance (search_action q) refl readonly)
        (inl refl),
  )

  -- If search_text is enabled and the readonly tier is ALLOW, then whatever the sensitive patterns
  -- are, a search through the assembled dispatcher that gives a result tells every line with the
  -- query of every text file that the walk of the workspace lists and that can be read.
  pub assembled-discloses :
      (q path line : String) (i : ℕ) (r : ToolResult)
      → mem_text "search_text" config.tools.enabled ≡ true
      → config.governance.decisions.readonly ≡ allow
      → HasLine os q (ctx.resolve ".") w path line i
      → Listed path (os.walk (ctx.resolve ".") w)
      → (search_text os (searching q) ctx w).0 ≡ ok r
      → (v : Verdict) × (hits : List String) × ((assembled (search_action q)).0
          ≡ ok (v, some (search_result os hits)))
        × (mem_text (hit_line (os.relpath path (ctx.resolve ".")) i line) hits ≡ true)
  assembled-discloses q path line i r on readonly found listed h =
      let (v, runs) = search_runs q on readonly in
      let (hits, is, told) = search_text-found os q ctx w path line i r found listed h in
      (
        v,
        hits,
        ap (λ (x : Dispatched W). x.0) runs
            ∙ finish_run-result v (search_result os hits) (search_text os (searching q) ctx w)
                (h ∙ ap ok is),
        told,
      )
