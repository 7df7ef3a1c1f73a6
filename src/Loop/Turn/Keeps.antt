-- ===== src/Loop/Turn/Keeps.antt =====
-- What a run of aegiscode/loop/harness.py can do to the world, by what its parts do.
use aegis_code.Prelude.{
  ◌≡◌, refl, sym, subst, inl, inr, ℕ, zero, suc, String, Bool, true, false, List, Option, none,
  some, Result, ok, err, Bool-cases,
}
use aegis_code.Context.{Memory}
use aegis_code.Governance.Decision.{Action, Verdict, is_require_approval}
use aegis_code.Governance.Dispatcher.{dispatch, Dispatched}
use aegis_code.Governance.Dispatcher.Runs.{dispatch-Guarded, finish_run-world}
use aegis_code.Loop.Termination.{Reason}
use aegis_code.Loop.Harness.{Harness, Loop, Turn, stop, next}
use aegis_code.Loop.Parts.{emit, terminate, crash, remember_step, failing}
use aegis_code.Loop.Turn.{
  resolved, resolve, dispatched, parsed, answered, recalled, is_cancelled, continued, checked,
  timed, turn, resume, run, initial,
}
use aegis_code.Loop.Turn.Denied.{world_of}
use aegis_code.Loop.Turn.Voided.{resolve-resolver}
use aegis_code.Loop.Turn.Kept.{
  PartsKeep, attempt-keeps, retrieve_memories-keeps, judged-keeps, resolved-keeps,
}

module _ {W : Type 0} (h : Harness W) (P : W → Type 0) where
  module _ (k : PartsKeep h P) where
    resolve-none :
        (action : Action) (v : Verdict) (w : W)
        → h.approval_resolver ≡ none
        → resolve h action v w ≡ (ok (action, false), w)
    unfolding resolve
    resolve-none action v w nobody = rw nobody refl

    rejected-keeps :
        (fp : String) (v : Verdict) (s : Loop W) (action : Action) (w : W)
        → P w
        → P (world_of (resolved h fp v s (ok (action, false), w)))
    unfolding resolved emit remember_step failing
    rejected-keeps fp v s action w p = p

    asked-keeps :
        (o : Option (Action → Verdict → W → Result (Action × Bool) × W)) (fp : String) (v : Verdict)
        (s : Loop W) (action : Action) (w : W)
        → h.approval_resolver ≡ o
        → P w
        → P (world_of (resolved h fp v s (resolve h action v w)))
    asked-keeps none fp v s action w nobody p =
        rw (resolve-none action v w nobody) (rejected-keeps fp v s action w p)
    asked-keeps (some f) fp v s action w has p =
        rw (resolve-resolver h f action v w has)
          (resolved-keeps h P k f fp v s (f action v w) has (k.resolver f has action v w p))

    dispatch-keeps : (action : Action) (w : W) → P w → P (dispatch h.dispatcher action h.ctx w).1
    dispatch-keeps action w p = elim (dispatch-Guarded h.dispatcher action h.ctx w) [
      | inl same ↦ rw same p
      | inr ran ↦
          subst (λ (out : Dispatched W). P out.1) (sym ran.result)
            (rw (finish_run-world ran.v (ran.tool.run action.arguments h.ctx w)) (
              k.permitted action ran.tool ran.v w ran.registered ran.fences ran.judged ran.permits
                p))
    ]

    dispatched-keeps :
        (action : Action) (s : Loop W) (out : Dispatched W)
        → P out.1
        → P (world_of (dispatched h action s out))
    unfolding dispatched crash terminate emit
    dispatched-keeps action s (err e, w) p = p
    dispatched-keeps action s (ok (v, r), w) p =
        elim (Bool-cases (is_require_approval v.decision)) [
          | inl e ↦ rw e (asked-keeps h.approval_resolver _ v _ action w refl p)
          | inr e ↦ rw e (judged-keeps h P k action v r _ p)
        ]

    parsed-keeps :
        (raw : String) (s : Loop W) (r : Result Action)
        → P s.world
        → P (world_of (parsed h raw s r))
    unfolding parsed emit
    parsed-keeps raw s (err e) p = p
    parsed-keeps raw s (ok action) p =
        dispatched-keeps action _ (dispatch h.dispatcher action h.ctx s.world)
          (dispatch-keeps action s.world p)

    recalled-keeps :
        (task : String) (s : Loop W) (rows : Result (List Memory) × W)
        → P rows.1
        → P (world_of (recalled h task s rows))
    unfolding recalled answered crash terminate emit
    recalled-keeps task s (err e, w) p = p
    recalled-keeps task s (ok memories, w) p = answered-keeps _ (attempt-keeps h P k _ _ _ w p)
      where
        answered-keeps : (r : Result String × W) → P r.1 → P (world_of (answered h s r))
        answered-keeps (err e, v) q = q
        answered-keeps (ok raw, v) q = parsed-keeps raw (record s { world = v }) _ q

    is_cancelled-keeps :
        (o : Option (W → Bool × W)) (w : W) → h.cancel_check ≡ o → P w → P (is_cancelled h w).1
    unfolding is_cancelled
    is_cancelled-keeps none w e p = rw e p
    is_cancelled-keeps (some f) w e p = rw e (k.cancelling f e w p)

    checked-keeps :
        (task : String) (s : Loop W) (o : Option Reason)
        → P s.world
        → P (world_of (checked h task s o))
    unfolding checked continued terminate emit
    checked-keeps task s (some reason) p = p
    checked-keeps task s none p =
        continued-keeps _ (is_cancelled-keeps h.cancel_check s.world refl p)
      where
        continued-keeps : (a : Bool × W) → P a.1 → P (world_of (continued h task s a))
        continued-keeps (true, w) q = q
        continued-keeps (false, w) q =
            recalled-keeps task (record s { world = w }) _
              (retrieve_memories-keeps h P k h.memory_store h.project_id w refl refl q)

    turn-keeps : (task : String) (s : Loop W) → P s.world → P (world_of (turn h task s))
    unfolding turn timed
    turn-keeps task s p =
        checked-keeps task (record s { world = (h.elapsed s.world).1 }) _ (k.elapsed s.world p)

    KeptEnd : Option (Reason × Loop W) → Type 0
    KeptEnd none = Unit {0}
    KeptEnd (some (reason, s)) = P s.world

    resume-keeps :
        (n : ℕ) (task : String) (t : Turn W) → P (world_of t) → KeptEnd (resume h n task t)
    unfolding resume KeptEnd
    resume-keeps zero task (stop reason s) p = p
    resume-keeps (suc n) task (stop reason s) p = p
    resume-keeps zero task (next s) p = tt
    resume-keeps (suc n) task (next s) p = resume-keeps n task (turn h task s) (turn-keeps task s p)

    -- A property of the world that the model, the clock, the verifier, the memories, the approver, the
    -- flag of cancellation and the tools keep holds after any run that began with it. A tool has to
    -- keep it only where its action passes the fences, and the engine permits it or there is an
    -- approver.
    pub run-Keeps :
        (fuel : ℕ) (task : String) (w : W) (reason : Reason) (s : Loop W)
        → P w
        → run h fuel task w ≡ some (reason, s)
        → P s.world
    unfolding run KeptEnd
    run-Keeps fuel task w reason s p e =
        subst KeptEnd e (resume-keeps fuel task (next (initial h w)) p)
