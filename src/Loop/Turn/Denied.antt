-- ===== src/Loop/Turn/Denied.antt =====
-- What a turn of aegiscode/loop/harness.py does to the world when its action is not permitted.
use aegis_code.Prelude.{
  ◌≡◌, refl, sym, ap, ◌∙◌, subst, String, Option, none, Result, ok, err, ◌⊎◌, inl, inr,
}
use aegis_code.Tools.{ToolResult}
use aegis_code.Governance.Decision.{
  Decision, allow, allow_with_audit, require_approval, deny, Verdict, Action,
}
use aegis_code.Governance.Dispatcher.{dispatch, Executed, finish_run}
use aegis_code.Governance.Dispatcher.Runs.{dispatch-Guarded}
use aegis_code.Loop.Harness.{Harness, Loop, Turn, stop, next}
use aegis_code.Loop.Parts.{emit, terminate, crash, remember_step, failing}
use aegis_code.Loop.Turn.{refused, judged, resolve, resolved, dispatched, parsed}

-- the world after a turn
abbrev pub world_of : {W : Type 0} → Turn W → W
world_of (stop reason s) = s.world
world_of (next s) = s.world

finish_run-permits :
    {W : Type 0} (v u : Verdict) (r : Option ToolResult) (w : W) (out : Executed W)
    → finish_run v out ≡ (ok (u, r), w)
    → v ≡ u
unfolding finish_run
finish_run-permits v u r w (ok x, w1) e = cc
finish_run-permits v u r w (err x, w1) e = cc

module _ {W : Type 0} (h : Harness W) where
  permitted-not :
      (d : Decision)
      → (d ≡ deny) ⊎ (d ≡ require_approval)
      → (d ≡ allow) ⊎ (d ≡ allow_with_audit)
      → ⊥
  permitted-not d (inl a) (inl b) = cc
  permitted-not d (inl a) (inr b) = cc
  permitted-not d (inr a) (inl b) = cc
  permitted-not d (inr a) (inr b) = cc

  dispatch-unpermitted :
      (action : Action) (v : Verdict) (r : Option ToolResult) (w0 w : W)
      → dispatch h.dispatcher action h.ctx w0 ≡ (ok (v, r), w)
      → (v.decision ≡ deny) ⊎ (v.decision ≡ require_approval)
      → w ≡ w0
  dispatch-unpermitted action v r w0 w e not_permitted =
      elim (dispatch-Guarded h.dispatcher action h.ctx w0) [
        | inl same ↦ ap (λ o. o.1) (sym e) ∙ same
        | inr ran ↦
            let is_v = finish_run-permits ran.v v r w _ (sym ran.result ∙ e) in
            absurd (
              permitted-not ran.v.decision
                (subst (λ u. (u.decision ≡ deny) ⊎ (u.decision ≡ require_approval)) (sym is_v)
                  not_permitted)
                ran.permits)
      ]

  pub refused-world :
      (action : Action) (v : Verdict) (s : Loop W) (summary : String) (r : Result String)
      → world_of (refused h action v s summary r) ≡ s.world
  unfolding refused crash terminate emit remember_step failing
  refused-world action v s summary (err e) = refl
  refused-world action v s summary (ok fb) = refl

  -- The policy denies the action, or asks for an approval where nobody can give one.
  abbrev pub Unpermitted : Verdict → Type 0
  Unpermitted v =
      (v.decision ≡ deny) ⊎ ((v.decision ≡ require_approval) × (h.approval_resolver ≡ none))

  dispatched-world :
      (action : Action) (v : Verdict) (r : Option ToolResult) (s : Loop W) (w : W)
      → Unpermitted v
      → world_of (dispatched h action s (ok (v, r), w)) ≡ w
  unfolding dispatched judged resolve resolved remember_step failing emit
  dispatched-world action v r s w (inl denied) = rw denied (refused-world action _ _ _ _)
  dispatched-world action v r s w (inr (asks, nobody)) = rw (asks, nobody) refl

  -- An action whose verdict is DENY, or REQUIRE_APPROVAL where there is no resolver, is not run:
  -- after the turn the world is as it was when the model's reply was parsed.
  pub parsed-Unpermitted :
      (raw : String) (s : Loop W) (action : Action) (v : Verdict) (r : Option ToolResult) (w : W)
      → dispatch h.dispatcher action h.ctx s.world ≡ (ok (v, r), w)
      → Unpermitted v
      → world_of (parsed h raw s (ok action)) ≡ s.world
  unfolding parsed
  parsed-Unpermitted raw s action v r w e u =
      rw e (dispatched-world action v r _ w u)
      ∙ dispatch-unpermitted action v r s.world w e
          (elim u [ inl denied ↦ inl denied | inr asks ↦ inr asks.0 ])
