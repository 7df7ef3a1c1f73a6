-- ===== src/Governance/Dispatcher/Runs.antt =====
-- When `dispatch` of aegiscode/governance/dispatcher.py runs a tool.
use aegis_code.Prelude.{
  ◌≡◌, refl, String, Option, none, some, Result, ok, err, inl, inr, ◌⊎◌, arith,
}
use aegis_code.Tools.{Ctx, Tool, ToolResult, get_tool}
use aegis_code.Governance.Decision.{
  Decision, allow, allow_with_audit, require_approval, deny, Verdict, Action, evaluate,
}
use aegis_code.Governance.Dispatcher.{
  Executed, path_fence_reason, run_command_fence_reason, refuse, verdict, Dispatcher, Dispatched,
  fenced, finish_run, by_verdict, by_engine, dispatch_with, dispatch,
}
use aegis_code.Governance.Dispatcher.Gates.{FencesPass, reasons-FencesPass}

pub finish_run-world : {W : Type 0} (v : Verdict) (out : Executed W) → (finish_run v out).1 ≡ out.1
unfolding finish_run
finish_run-world v (ok r, w) = refl
finish_run-world v (err e, w) = refl

module _ {W : Type 0} (d : Dispatcher W) (action : Action) (ctx : Ctx) (w : W) where
  -- What has to be so for a tool to have run, and what came of it.
  pub record Ran (out : Dispatched W) : Type 0 where
    pub tool : Tool W
    pub registered : get_tool action.tool d.registry ≡ some tool
    pub fences : FencesPass d action ctx w
    pub v : Verdict
    pub judged : evaluate d.engine action ≡ ok v
    pub permits : (v.decision ≡ allow) ⊎ (v.decision ≡ allow_with_audit)
    pub result : out ≡ finish_run v (tool.run action.arguments ctx w)

  -- Nothing happened to the world, or a tool ran behind its gates.
  abbrev pub Guarded : Dispatched W → Type 0
  Guarded out = (out.1 ≡ w) ⊎ Ran out

  verdict-Guarded :
      (tool : Tool W) (v : Verdict) (to : Decision)
      → get_tool action.tool d.registry ≡ some tool
      → FencesPass d action ctx w
      → evaluate d.engine action ≡ ok v
      → v.decision ≡ to
      → Guarded (by_verdict tool action ctx w v)
  unfolding by_verdict
  verdict-Guarded tool v deny reg f e is = inl (rw is)
  verdict-Guarded tool v require_approval reg f e is = inl (rw is)
  verdict-Guarded tool v allow reg f e is = inr (record {
    tool = tool;
    registered = reg;
    fences = f;
    v = v;
    judged = e;
    permits = inl is;
    result = rw is;
  })
  verdict-Guarded tool v allow_with_audit reg f e is = inr (record {
    tool = tool;
    registered = reg;
    fences = f;
    v = v;
    judged = e;
    permits = inr is;
    result = rw is;
  })

  engine-Guarded :
      (tool : Tool W) (r : Result Verdict)
      → get_tool action.tool d.registry ≡ some tool
      → FencesPass d action ctx w
      → evaluate d.engine action ≡ r
      → Guarded (by_engine tool action ctx w r)
  unfolding by_engine
  engine-Guarded tool (err e) reg f read = inl refl
  engine-Guarded tool (ok v) reg f read = verdict-Guarded tool v v.decision reg f read refl

  -- a fence that is not passed leaves the world alone
  fenced-Guarded :
      (rule_id : String) (r : Result (Option String)) (next : Dispatched W)
      → (r ≡ ok none → Guarded next)
      → Guarded (fenced action.tool rule_id w r next)
  unfolding fenced
  fenced-Guarded rule_id (err e) next k = inl refl
  fenced-Guarded rule_id (ok (some why)) next k = inl refl
  fenced-Guarded rule_id (ok none) next k = k refl

  dispatch_with-Guarded :
      (o : Option (Tool W))
      → get_tool action.tool d.registry ≡ o
      → Guarded (dispatch_with d o action ctx w)
  unfolding dispatch_with
  dispatch_with-Guarded none reg = inl refl
  dispatch_with-Guarded (some tool) reg = fenced-Guarded _ _ _ λ p.
      fenced-Guarded _ _ _
        λ c. engine-Guarded tool _ reg (reasons-FencesPass d action ctx w p c) refl

  -- Either `dispatch` leaves the world as it was, or the action's tool is registered, both fences pass
  -- and the engine's verdict is ALLOW or ALLOW_WITH_AUDIT, and the outcome is that of the tool's run
  -- under this verdict.
  pub dispatch-Guarded : Guarded (dispatch d action ctx w)
  unfolding dispatch
  dispatch-Guarded = dispatch_with-Guarded _ refl

  -- Where the action's tool is registered, both fences pass and the engine's verdict is ALLOW or
  -- ALLOW_WITH_AUDIT, `dispatch` runs the tool.
  pub dispatch-runs :
      (tool : Tool W) (v : Verdict)
      → get_tool action.tool d.registry ≡ some tool
      → path_fence_reason d action ctx w ≡ ok none
      → run_command_fence_reason d action ctx w ≡ ok none
      → evaluate d.engine action ≡ ok v
      → (v.decision ≡ allow) ⊎ (v.decision ≡ allow_with_audit)
      → dispatch d action ctx w ≡ finish_run v (tool.run action.arguments ctx w)
  unfolding dispatch dispatch_with fenced by_engine by_verdict
  dispatch-runs tool v reg path command judged (inl allows) =
      rw (reg, path, command, judged, allows) refl
  dispatch-runs tool v reg path command judged (inr allows) =
      rw (reg, path, command, judged, allows) refl

  -- the outcome denies, and the world is as it was
  abbrev pub Denies : Dispatched W → Type 0
  Denies out =
      (v : Verdict) × (r : Option ToolResult) × (out ≡ (ok (v, r), w)) × (v.decision ≡ deny)

  dispatch_with-Denies : (o : Option (Tool W)) → o ≡ none → Denies (dispatch_with d o action ctx w)
  unfolding dispatch_with refuse verdict
  dispatch_with-Denies none e = (_, _, refl, refl)
  dispatch_with-Denies (some tool) e = ground arith

  -- An action whose tool is not registered is denied, and the world stays as it was.
  pub dispatch-Denies : get_tool action.tool d.registry ≡ none → Denies (dispatch d action ctx w)
  unfolding dispatch
  dispatch-Denies unknown = dispatch_with-Denies (get_tool action.tool d.registry) unknown
