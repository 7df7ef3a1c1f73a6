-- ===== src/Governance/Dispatcher/Approved.antt =====
-- What `execute_approved` of aegiscode/governance/dispatcher.py does with an action.
use aegis_code.Prelude.{
  ◌≡◌, ◌≢◌, refl, String, Bool, true, false, Option, none, some, Result, ok, err, arith, inl, inr,
  ◌⊎◌, ◌==◌, eq_iff,
}
use aegis_code.Json.{bool, get}
use aegis_code.Tools.{denied, ToolResult, Ctx, Tool, get_tool}
use aegis_code.Governance.Decision.{Action}
use aegis_code.Governance.Approval.{fingerprint, validate_resume}
use aegis_code.Governance.Dispatcher.{
  Dispatcher, Executed, fenced_run, superseded_result, execute_with, execute_bound,
  execute_approved,
}
use aegis_code.Governance.Dispatcher.Gates.{FencesPass, reasons-FencesPass}

module _ {W : Type 0} (d : Dispatcher W) (sha256 : String → String) (action : Action) (ctx : Ctx)
    (w : W) where
  pub record RanApproved (out : Executed W) : Type 0 where
    pub tool : Tool W
    pub registered : get_tool action.tool d.registry ≡ some tool
    pub fences : FencesPass d action ctx w
    pub result : out ≡ tool.run action.arguments ctx w

  abbrev Kept : Executed W → Type 0
  Kept out = (out.1 ≡ w) ⊎ RanApproved out

  fenced_run-Kept :
      (r : Result (Option String)) (next : Executed W)
      → (r ≡ ok none → Kept next)
      → Kept (fenced_run action.tool w r next)
  unfolding fenced_run
  fenced_run-Kept (err e) next k = inl refl
  fenced_run-Kept (ok (some why)) next k = inl refl
  fenced_run-Kept (ok none) next k = k refl

  execute_with-Kept :
      (o : Option (Tool W))
      → get_tool action.tool d.registry ≡ o
      → Kept (execute_with d o action ctx w)
  unfolding execute_with
  execute_with-Kept none reg = inl refl
  execute_with-Kept (some tool) reg = fenced_run-Kept _ _ λ p. fenced_run-Kept _ _ λ c.
      inr (record {
        tool = tool;
        registered = reg;
        fences = reasons-FencesPass d action ctx w p c;
        result = refl;
      })

  -- An approval bound to a fingerprint: the world stays as it was, or the fingerprint of the action
  -- is the approved one, its tool is registered, both fences pass, and the tool ran.
  abbrev pub Authorized : String → Executed W → Type 0
  Authorized approved_fp out =
      (out.1 ≡ w) ⊎ (fingerprint sha256 action ≡ approved_fp) × RanApproved out

  Kept-Authorized :
      (approved_fp : String) {out : Executed W}
      → fingerprint sha256 action ≡ approved_fp
      → Kept out
      → Authorized approved_fp out
  Kept-Authorized approved_fp e k = elim k [ inl same ↦ inl same | inr ran ↦ inr (e, ran) ]

  execute_bound-Authorized :
      (approved_fp : String) (b : Bool)
      → fingerprint sha256 action == approved_fp ≡ b
      → Authorized approved_fp (execute_approved d sha256 action ctx (some approved_fp) w)
  unfolding execute_approved validate_resume execute_bound
  execute_bound-Authorized approved_fp true same = rw same (
      Kept-Authorized approved_fp ((eq_iff (fingerprint sha256 action) approved_fp).0 same)
        (execute_with-Kept _ refl))
  execute_bound-Authorized approved_fp false differ = inl (rw differ)

  -- After an approval bound to a fingerprint, `execute_approved` leaves the world as it was, or the
  -- action has the approved fingerprint, its tool is registered, both fences pass, and the outcome is
  -- that of the tool's run.
  pub execute_approved-Authorized :
      (approved_fp : String)
      → Authorized approved_fp (execute_approved d sha256 action ctx (some approved_fp) w)
  execute_approved-Authorized approved_fp = execute_bound-Authorized approved_fp _ refl

  -- An action whose fingerprint is not the approved one is refused as SUPERSEDED: the world stays
  -- as it was and the result carries the mark that the loop looks for.
  pub execute_approved-superseded :
      (approved_fp : String)
      → fingerprint sha256 action ≢ approved_fp
      → (r : ToolResult) × (execute_approved d sha256 action ctx (some approved_fp) w ≡ (ok r, w))
        × (r.status ≡ denied)
        × (get "superseded" r.artifacts ≡ some (bool true))
  unfolding execute_approved validate_resume execute_bound get
  execute_approved-superseded approved_fp ne = (
    superseded_result action.tool "action changed since approval",
    ground (arith, eq_iff (fingerprint sha256 action) approved_fp),
    refl,
    refl,
  )
