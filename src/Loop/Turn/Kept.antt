-- ===== src/Loop/Turn/Kept.antt =====
-- What the parts of a turn of aegiscode/loop/harness.py do to the world, up to the approval.
use aegis_code.Prelude.{
  ◌≡◌, sym, subst, ◌⊎◌, inl, inr, ℕ, zero, suc, String, Bool, true, false, List, Option, none, some,
  Result, ok, err, Bool-cases, ◌==◌,
}
use aegis_code.Context.{Message}
use aegis_code.Tools.{Tool, ToolResult, get_tool}
use aegis_code.Governance.Decision.{Action, Verdict, allow, allow_with_audit, evaluate, is_deny}
use aegis_code.Governance.Dispatcher.{execute_approved, Executed}
use aegis_code.Governance.Dispatcher.Gates.{FencesPass}
use aegis_code.Governance.Dispatcher.Approved.{execute_approved-Authorized}
use aegis_code.Loop.Harness.{Harness, Loop, MemoryRow, is_superseded}
use aegis_code.Loop.Parts.{
  emit, terminate, crash, remember_step, failing, retrieve_memories, with_rows, attempt, or_again,
}
use aegis_code.Loop.Turn.{settled, verified, executed, refused, judged, approved, resolved}
use aegis_code.Loop.Turn.Denied.{world_of, refused-world}

module _ {W : Type 0} (h : Harness W) (P : W → Type 0) where
  -- Every part of the harness leaves the property as it is; a tool has to only where its action
  -- passes the fences, and the engine permits it or there is a resolver that may have approved it.
  pub record PartsKeep : Type 0 where
    pub complete : (messages : List Message) (w : W) → P w → P (h.complete messages w).1
    pub elapsed : (w : W) → P w → P (h.elapsed w).1
    pub final_verifier : (w : W) → P w → P (h.final_verifier w).1
    pub resolver :
        (f : Action → Verdict → W → Result (Action × Bool) × W)
        → h.approval_resolver ≡ some f
        → (action : Action) (v : Verdict) (w : W) → P w
        → P (f action v w).1
    pub cancelling : (f : W → Bool × W) → h.cancel_check ≡ some f → (w : W) → P w → P (f w).1
    pub memory :
        (f : String → ℕ → W → Result (List MemoryRow) × W)
        → h.memory_store ≡ some f
        → (project : String) (top_k : ℕ) (w : W) → P w
        → P (f project top_k w).1
    pub permitted :
        (action : Action) (tool : Tool W) (v : Verdict) (w : W)
        → get_tool action.tool h.dispatcher.registry ≡ some tool
        → FencesPass h.dispatcher action h.ctx w
        → evaluate h.dispatcher.engine action ≡ ok v
        → (v.decision ≡ allow) ⊎ (v.decision ≡ allow_with_audit)
        → P w
        → P (tool.run action.arguments h.ctx w).1
    pub after_approval :
        (f : Action → Verdict → W → Result (Action × Bool) × W) (action : Action) (tool : Tool W)
        (w : W)
        → h.approval_resolver ≡ some f
        → get_tool action.tool h.dispatcher.registry ≡ some tool
        → FencesPass h.dispatcher action h.ctx w
        → P w
        → P (tool.run action.arguments h.ctx w).1

  module _ (k : PartsKeep) where
    or_again-keeps : (a b : Result String × W) → P a.1 → (P a.1 → P b.1) → P (or_again a b).1
    unfolding or_again
    or_again-keeps (ok text, w) b p f = p
    or_again-keeps (err e, w) b p f = f p

    pub attempt-keeps :
        (retries left : ℕ) (messages : List Message) (w : W)
        → P w
        → P (attempt h retries left messages w).1
    unfolding attempt
    attempt-keeps retries zero messages w p = p
    attempt-keeps retries (suc left) messages w p =
        or_again-keeps (h.complete messages w) _ (k.complete messages w p)
          (attempt-keeps retries left messages (h.complete messages w).1)

    with_rows-keeps : (r : Result (List MemoryRow) × W) → P r.1 → P (with_rows r).1
    unfolding with_rows
    with_rows-keeps (ok rows, w) p = p
    with_rows-keeps (err e, w) p = p

    pub retrieve_memories-keeps :
        (store : Option (String → ℕ → W → Result (List MemoryRow) × W)) (project : Option String)
        (w : W)
        → h.memory_store ≡ store
        → h.project_id ≡ project
        → P w
        → P (retrieve_memories h w).1
    unfolding retrieve_memories
    retrieve_memories-keeps none project w e e' p = rw e p
    retrieve_memories-keeps (some store) none w e e' p = rw (e, e') p
    retrieve_memories-keeps (some store) (some project) w e e' p =
        rw (e, e') (with_rows-keeps _ (k.memory store e project _ w p))

    verified-keeps : (s : Loop W) (r : Result Bool × W) → P r.1 → P (world_of (verified h s r))
    unfolding verified crash terminate emit failing
    verified-keeps s (err e, w) p = p
    verified-keeps s (ok true, w) p = p
    verified-keeps s (ok false, w) p = p

    executed-keeps :
        (action : Action) (v : Verdict) (s : Loop W) (r : Option ToolResult)
        → P s.world
        → P (world_of (executed h action v s r))
    unfolding executed settled crash terminate emit remember_step
    executed-keeps action v s none p = p
    executed-keeps action v s (some r) p = elim (Bool-cases (action.tool == "finish")) [
      | inl is ↦ rw is (verified-keeps _ (h.final_verifier s.world) (k.final_verifier s.world p))
      | inr other ↦ rw other p
    ]

    refused-keeps :
        (action : Action) (v : Verdict) (s : Loop W) (summary : String) (r : Result String)
        → P s.world
        → P (world_of (refused h action v s summary r))
    refused-keeps action v s summary r p = rw (refused-world h action v s summary r) p

    pub judged-keeps :
        (action : Action) (v : Verdict) (r : Option ToolResult) (s : Loop W)
        → P s.world
        → P (world_of (judged h action v r s))
    unfolding judged
    judged-keeps action v r s p = elim (Bool-cases (is_deny v.decision)) [
      | inl e ↦ rw e (refused-keeps action v s _ _ p)
      | inr e ↦ rw e (executed-keeps action v s r p)
    ]

    approved-keeps :
        (action : Action) (v : Verdict) (s : Loop W) (out : Executed W)
        → P out.1
        → P (world_of (approved h action v s out))
    unfolding approved crash terminate emit
    approved-keeps action v s (err e, w) p = p
    approved-keeps action v s (ok r, w) p = elim (Bool-cases (is_superseded r)) [
      | inl e ↦ rw e (refused-keeps action v _ r.summary _ p)
      | inr e ↦ rw e (judged-keeps action v (some r) _ p)
    ]

    execute_approved-keeps :
        (f : Action → Verdict → W → Result (Action × Bool) × W) (action : Action) (fp : String)
        (w : W)
        → h.approval_resolver ≡ some f
        → P w
        → P (execute_approved h.dispatcher h.sha256 action h.ctx (some fp) w).1
    execute_approved-keeps f action fp w has p =
        elim (execute_approved-Authorized h.dispatcher h.sha256 action h.ctx w fp) [
          | inl same ↦ rw same p
          | inr (bound, ran) ↦
              subst (λ (out : Executed W). P out.1) (sym ran.result)
                (k.after_approval f action ran.tool w has ran.registered ran.fences p)
        ]

    pub resolved-keeps :
        (f : Action → Verdict → W → Result (Action × Bool) × W) (fp : String) (v : Verdict)
        (s : Loop W) (a : Result (Action × Bool) × W)
        → h.approval_resolver ≡ some f
        → P a.1
        → P (world_of (resolved h fp v s a))
    unfolding resolved crash terminate emit remember_step failing
    resolved-keeps f fp v s (err e, w) has p = p
    resolved-keeps f fp v s (ok (action, true), w) has p =
        approved-keeps action v s _ (execute_approved-keeps f action fp w has p)
    resolved-keeps f fp v s (ok (action, false), w) has p = p
