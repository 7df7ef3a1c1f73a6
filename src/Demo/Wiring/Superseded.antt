-- ===== src/Demo/Wiring/Superseded.antt =====
-- The second approval of a run of aegiscode/demo/service.py whose resolver is wrapped.
use aegis_code.Prelude.{◌≡◌, ◌≢◌, refl, ◌+◌, false, Option, some, ok, nat_eq, arith, ◌<◌}
use aegis_code.Tools.{ToolResult}
use aegis_code.Governance.Decision.{Action, Verdict, require_approval}
use aegis_code.Governance.Approval.{fingerprint}
use aegis_code.Loop.Harness.{Harness, Loop}
use aegis_code.Loop.Turn.{dispatched}
use aegis_code.Loop.Turn.Denied.{world_of}
use aegis_code.Loop.Turn.Voided.{dispatched-Voided}
use aegis_code.Demo.Wiring.{Stage, Resolver, mutated, wrap_supersede_resolver}

module _ {W : Type 0} (g : Stage W) (h : Harness W) where
  -- In a run whose resolver is wrapped and was called before, an action that asks for an approval
  -- is not run if the change of its content changes its fingerprint: after the turn the world is as
  -- the dispatcher left it, but for the count of calls.
  pub dispatched-Superseded :
      (base : Resolver W) (action : Action) (v : Verdict) (r : Option ToolResult) (s : Loop W)
      (w : W)
      → h.approval_resolver ≡ some (wrap_supersede_resolver g base)
      → v.decision ≡ require_approval
      → 0 < g.calls_of w
      → fingerprint h.sha256 (mutated action) ≢ fingerprint h.sha256 action
      → world_of (dispatched h action s (ok (v, r), w)) ≡ g.set_calls (g.calls_of w + 1) w
  unfolding wrap_supersede_resolver
  dispatched-Superseded base action v r s w wrapped asks called changes =
      let again : nat_eq (g.calls_of w + 1) 1 ≡ false = ground arith in
      dispatched-Voided h (wrap_supersede_resolver g base) action (mutated action) v r s w _ wrapped
        asks (rw again refl) changes
