-- ===== src/Loop/Turn/Ordered.antt =====
-- The order of the events in the log of a whole run of aegiscode/loop/harness.py.
use aegis_code.Prelude.{
  ℕ, zero, suc, ◌≡◌, refl, String, Bool, true, false, List, Option, none, some, Result, ok, err,
  Bool-cases, inl, inr, subst,
}
use aegis_code.Json.{Fields}
use aegis_code.Context.{Memory}
use aegis_code.Governance.Decision.{is_require_approval, Verdict, Action}
use aegis_code.Governance.Dispatcher.{Dispatched}
use aegis_code.Audit.Events.{governance_decision, approval_decided}
use aegis_code.Loop.Termination.{Reason, llm_error, cancelled}
use aegis_code.Loop.Harness.{Harness, Loop, Turn, stop, next}
use aegis_code.Loop.Parts.{emit, remember_step, failing}
use aegis_code.Loop.Turn.{
  resolved, dispatched, parsed, answered, recalled, continued, checked, timed, turn, resume, run,
  initial,
}
use aegis_code.Loop.Turn.Protocol.{
  Protocol, empty, other, Ordered, emit-Protocol, verdict-LastPermits, terminate-Ordered,
  crash-Ordered, judged-Ordered, approved-Ordered,
}

module _ {W : Type 0} (h : Harness W) where
  resolved-Ordered :
      (fp : String) (v : Verdict) (s : Loop W) (answer : Result (Action × Bool) × W)
      → Protocol s.log
      → Ordered h (resolved h fp v s answer)
  unfolding Ordered resolved remember_step failing
  resolved-Ordered fp v s (err e, w) q = crash-Ordered h s w q
  resolved-Ordered fp v s (ok (action, true), w) q = approved-Ordered h action v s _ q
  resolved-Ordered fp v s (ok (action, false), w) q =
      emit-Protocol h approval_decided _ (record s { world = w }) refl q

  dispatched-Ordered :
      (action : Action) (s : Loop W) (out : Dispatched W)
      → Protocol s.log
      → Ordered h (dispatched h action s out)
  unfolding dispatched
  dispatched-Ordered action s (err e, w) q = crash-Ordered h s w q
  dispatched-Ordered action s (ok (v, r), w) q =
      elim (Bool-cases (is_require_approval v.decision)) [
        | inl e ↦ rw e (resolved-Ordered _ v (judgement _) _ (ordered _))
        | inr e ↦ rw e (
            judged-Ordered h action v r (judgement _) (ordered _)
              λ d. verdict-LastPermits h action v (record s { world = w }) e d)
      ]
    where
      judgement : Fields → Loop W
      judgement p = emit h governance_decision p (record s { world = w })

      ordered : (p : Fields) → Protocol (judgement p).log
      ordered p = emit-Protocol h governance_decision p (record s { world = w }) refl q

  parsed-Ordered :
      (raw : String) (s : Loop W) (r : Result Action)
      → Protocol s.log
      → Ordered h (parsed h raw s r)
  unfolding Ordered parsed emit
  parsed-Ordered raw s (err e) q = other _ _ (other s.log _ q refl) refl
  parsed-Ordered raw s (ok action) q = dispatched-Ordered action _ _ (other s.log _ q refl)

  recalled-Ordered :
      (task : String) (s : Loop W) (rows : Result (List Memory) × W)
      → Protocol s.log
      → Ordered h (recalled h task s rows)
  unfolding recalled answered
  recalled-Ordered task s (err e, w) q = crash-Ordered h s w q
  recalled-Ordered task s (ok memories, w) q = answered-Ordered s _ q
    where
      answered-Ordered :
          (s : Loop W) (reply : Result String × W) → Protocol s.log → Ordered h (answered h s reply)
      answered-Ordered s (err e, w) q = terminate-Ordered h llm_error (record s { world = w }) q
      answered-Ordered s (ok raw, w) q = parsed-Ordered raw (record s { world = w }) _ q

  checked-Ordered :
      (task : String) (s : Loop W) (o : Option Reason)
      → Protocol s.log
      → Ordered h (checked h task s o)
  unfolding checked continued
  checked-Ordered task s (some r) q = terminate-Ordered h r s q
  checked-Ordered task s none q = continued-Ordered s _ q
    where
      continued-Ordered :
          (s : Loop W) (answer : Bool × W) → Protocol s.log → Ordered h (continued h task s answer)
      continued-Ordered s (true, w) q = terminate-Ordered h cancelled (record s { world = w }) q
      continued-Ordered s (false, w) q = recalled-Ordered task (record s { world = w }) _ q

  turn-Ordered : (task : String) (s : Loop W) → Protocol s.log → Ordered h (turn h task s)
  unfolding turn timed
  turn-Ordered task s q = timed-Ordered s _ q
    where
      timed-Ordered :
          (s : Loop W) (clock : ℕ × W) → Protocol s.log → Ordered h (timed h task s clock)
      timed-Ordered s (seconds, w) q = checked-Ordered task (record s { world = w }) _ q

  -- the log of a result
  OrderedEnd : Option (Reason × Loop W) → Type 0
  OrderedEnd none = Unit
  OrderedEnd (some (reason, s)) = Protocol s.log

  resume-OrderedEnd :
      (n : ℕ) (task : String) (t : Turn W) → Ordered h t → OrderedEnd (resume h n task t)
  unfolding Ordered OrderedEnd resume
  resume-OrderedEnd zero task (stop reason s) q = q
  resume-OrderedEnd (suc n) task (stop reason s) q = q
  resume-OrderedEnd zero task (next s) q = tt
  resume-OrderedEnd (suc n) task (next s) q =
      resume-OrderedEnd n task (turn h task s) (turn-Ordered task s q)

  -- In the log of a run that returned, every TOOL_EXECUTED stands straight behind the event that
  -- permits it: a governance decision of ALLOW or ALLOW_WITH_AUDIT, or an approval.
  pub run-Protocol :
      (task : String) (fuel : ℕ) (w : W) (reason : Reason) (s : Loop W)
      → run h fuel task w ≡ some (reason, s)
      → Protocol s.log
  unfolding run Ordered OrderedEnd
  run-Protocol task fuel w reason s e =
      subst OrderedEnd e (resume-OrderedEnd fuel task (next (initial h w)) empty)
