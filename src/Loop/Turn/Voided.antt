-- ===== src/Loop/Turn/Voided.antt =====
-- An action that was changed after its approval, in the turn of aegiscode/loop/harness.py.
use aegis_code.Prelude.{
  ◌≡◌, ◌≢◌, refl, ap, String, Bool, true, Option, none, some, Result, ok, not, ◌∙◌,
}
use aegis_code.Json.{Json, null, bool, get, is_falsy}
use aegis_code.Tools.{ToolResult}
use aegis_code.Governance.Decision.{Action, Verdict, require_approval, is_require_approval}
use aegis_code.Governance.Approval.{fingerprint}
use aegis_code.Governance.Dispatcher.Approved.{execute_approved-superseded}
use aegis_code.Loop.Harness.{Harness, Loop, is_superseded}
use aegis_code.Loop.Parts.{emit}
use aegis_code.Loop.Turn.{dispatched, resolve, resolved, approved}
use aegis_code.Loop.Turn.Denied.{world_of, refused-world}

marked-is_superseded :
    (r : ToolResult) → get "superseded" r.artifacts ≡ some (bool true) → is_superseded r ≡ true
unfolding get is_falsy
marked-is_superseded r marked =
    ap (λ (o : Option Json). not (is_falsy (elim o [ none ↦ null | some v ↦ v ]))) marked

module _ {W : Type 0} (h : Harness W) where
  approved-Voided :
      (action : Action) (v : Verdict) (s : Loop W) (r : ToolResult) (w : W)
      → get "superseded" r.artifacts ≡ some (bool true)
      → world_of (approved h action v s (ok r, w)) ≡ w
  unfolding approved emit
  approved-Voided action v s r w marked =
      rw (marked-is_superseded r marked) (refused-world h action v _ r.summary _)

  -- An approval that comes back with an action of another fingerprint runs nothing: after the turn
  -- the world is as the resolver left it.
  pub resolved-Voided :
      (approved_fp : String) (v : Verdict) (s : Loop W) (action : Action) (w : W)
      → fingerprint h.sha256 action ≢ approved_fp
      → world_of (resolved h approved_fp v s (ok (action, true), w)) ≡ w
  unfolding resolved
  resolved-Voided approved_fp v s action w ne =
      let (r, is, _, marked) =
        execute_approved-superseded h.dispatcher h.sha256 action h.ctx w approved_fp ne in
      rw is (approved-Voided action v s r w marked)

  pub resolve-resolver :
      (resolver : Action → Verdict → W → Result (Action × Bool) × W) (action : Action) (v : Verdict)
      (w : W)
      → h.approval_resolver ≡ some resolver
      → resolve h action v w ≡ resolver action v w
  unfolding resolve
  resolve-resolver resolver action v w has = rw has refl

  -- The same where the approval was asked for in this turn.
  pub dispatched-Voided :
      (resolver : Action → Verdict → W → Result (Action × Bool) × W) (action changed : Action)
      (v : Verdict) (r : Option ToolResult) (s : Loop W) (w w' : W)
      → h.approval_resolver ≡ some resolver
      → v.decision ≡ require_approval
      → resolver action v w ≡ (ok (changed, true), w')
      → fingerprint h.sha256 changed ≢ fingerprint h.sha256 action
      → world_of (dispatched h action s (ok (v, r), w)) ≡ w'
  unfolding dispatched
  dispatched-Voided resolver action changed v r s w w' has asks answers ne =
      let asked : is_require_approval v.decision ≡ true = rw asks refl in
      rw (asked, resolve-resolver resolver action v w has ∙ answers)
        (resolved-Voided _ v _ changed w' ne)
