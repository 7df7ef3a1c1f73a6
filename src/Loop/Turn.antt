-- ===== src/Loop/Turn.antt =====
-- `HarnessCore.run` of aegiscode/loop/harness.py, a function for each part of the loop's body.
pub mod Journal
pub mod Stages
pub mod Returns
pub mod Protocol
pub mod Ordered
pub mod Denied
pub mod Silent
pub mod Voided
pub mod Kept
pub mod Keeps
mod Samples
use aegis_code.Prelude.{
  ℕ, zero, suc, ◌+◌, ◌-◌, String, Bool, true, false, List, [], ◌∷◌, ◌++◌, map, Option, none, some,
  Result, ok, err, Error, message, runtime_error, ◌>>=◌, ◌==◌, if◌then◌else◌,
}
use aegis_code.Prelude.Text.{◌+s◌}
use aegis_code.Prelude.Text.Repr.{decimal}
use aegis_code.Json.{str, obj, Fields, end, field}
use aegis_code.Tools.{Category, ToolResult}
use aegis_code.Context.{Message, StepRecord, Memory, build_context}
use aegis_code.Feedback.{classify, seen}
use aegis_code.Governance.Decision.{Decision, value, is_deny, is_require_approval, Verdict, Action}
use aegis_code.Governance.Approval.{fingerprint}
use aegis_code.Governance.Dispatcher.{Dispatcher, dispatch, execute_approved, Dispatched, Executed}
use aegis_code.Audit.Events.{
  EventType, action_proposed, governance_decision, approval_decided, tool_executed, feedback,
  termination, Event,
}
use aegis_code.Loop.Termination.{
  Reason, reason_text, completed, llm_error, internal_error, cancelled, LoopCounters, zero_counters,
  decide_termination,
}
use aegis_code.Loop.Parts.{
  emit, terminate, crash, remember_step, failing, retrieve_memories, build_messages, attempt,
  feedback_fields,
}
use aegis_code.Loop.Harness.{
  MemoryRow, PromptBuilder, Harness, Loop, Turn, stop, next, parse_failed, parse_succeeded,
  step_failed, step_settled, category_or_success, format_result, format_feedback, summary_of,
  settled_feedback, append_step, tool_payload, is_superseded,
}

module _ {W : Type 0} (h : Harness W) where
  -- the last part of a step whose tool ran: feedback, progress and the counters
  pub settled : Action → Verdict → ToolResult → Bool × List String → Loop W → Turn W
  unfolding settled_feedback category_or_success
  settled action v r progress s =
      let cat = classify r in
      let fb = settled_feedback progress.0 cat r in
      let s1 = record s {
        counters = step_settled progress.0 cat s.counters;
        last_feedback = fb;
        tracker = progress.1;
      } in
      let category = category_or_success cat in
      next (
        remember_step h action v category r.summary
          (emit h feedback (feedback_fields category fb) s1))

  -- after the final verifier
  pub verified : Loop W → Result Bool × W → Turn W
  verified s (err e, w) = crash h s w
  verified s (ok true, w) = terminate h completed (record s { world = w })
  verified s (ok false, w) =
      let fb : String = "FINISH_REJECTED: final verification failed" in
      next (
        failing h fb
          (emit h feedback (feedback_fields "FINISH_REJECTED" fb) (record s { world = w })))

  -- the tool has run, or a fence has refused an approved action
  pub executed : Action → Verdict → Loop W → Option ToolResult → Turn W
  unfolding tool_payload
  executed action v s none = crash h s s.world
  executed action v s (some r) =
      let s1 = emit h tool_executed (tool_payload action r) s in
      let progress =
        seen h.config.limits.no_progress_repeat_limit (fingerprint h.sha256 action) s.tracker in
      if action.tool == "finish"
      then verified s1 (h.final_verifier s1.world)
      else settled action v r progress s1

  -- a step that the policy denied, or whose approval is void
  pub refused : Action → Verdict → Loop W → String → Result String → Turn W
  refused action v s summary (err e) = crash h s s.world
  refused action v s summary (ok fb) = next (
      remember_step h action v "POLICY_DENIED" summary
        (failing h fb (emit h feedback (feedback_fields "POLICY_DENIED" fb) s)))

  -- past the question of approval
  pub judged : Action → Verdict → Option ToolResult → Loop W → Turn W
  unfolding summary_of
  judged action v r s =
      if is_deny v.decision
      then refused action v s (summary_of r) (format_feedback "POLICY_DENIED" r)
      else executed action v s r

  approval_fields : Action → String → Fields → Fields
  approval_fields action state more =
      field "tool" (str action.tool) (field "state" (str state) more)

  -- after `execute_approved`
  pub approved : Action → Verdict → Loop W → Executed W → Turn W
  unfolding approval_fields
  approved action v s (err e, w) = crash h s w
  approved action v s (ok r, w) =
      let s1 = record s { world = w } in
      let void = approval_fields action "SUPERSEDED" (field "detail" (str r.summary) end) in
      if is_superseded r
      then refused action v (emit h approval_decided void s1) r.summary
          (format_feedback "POLICY_DENIED" (some r))
      else judged action v (some r)
          (emit h approval_decided (approval_fields action "APPROVED" end) s1)

  -- the resolver's answer, with the action as it is after it
  pub resolved : String → Verdict → Loop W → Result (Action × Bool) × W → Turn W
  unfolding approval_fields
  resolved approved_fp v s (err e, w) = crash h s w
  resolved approved_fp v s (ok (action, true), w) =
      approved action v s (execute_approved h.dispatcher h.sha256 action h.ctx (some approved_fp) w)
  resolved approved_fp v s (ok (action, false), w) = next (
      remember_step h action v "APPROVAL_REJECTED" "" (
        failing h "APPROVAL_REJECTED: action was not approved" (
          emit h approval_decided (approval_fields action "REJECTED" end)
            (record s { world = w }))))

  -- without a resolver nothing is approved
  pub resolve : Action → Verdict → W → Result (Action × Bool) × W
  resolve action v w = ask h.approval_resolver
    where
      ask : Option (Action → Verdict → W → Result (Action × Bool) × W) → Result (Action × Bool) × W
      ask none = (ok (action, false), w)
      ask (some resolver) = resolver action v w

  pub verdict_fields : Action → Verdict → Fields
  verdict_fields action v = field "tool" (str action.tool) (
      field "decision" (str (value v.decision))
        (field "rule" (str v.rule_id) (field "reason" (str v.reason) end)))

  -- after the dispatcher
  pub dispatched : Action → Loop W → Dispatched W → Turn W
  unfolding verdict_fields
  dispatched action s (err e, w) = crash h s w
  dispatched action s (ok (v, r), w) =
      let s1 = emit h governance_decision (verdict_fields action v) (record s { world = w }) in
      if is_require_approval v.decision
      then resolved (fingerprint h.sha256 action) v s1 (resolve action v w)
      else judged action v r s1

  -- after the parser
  pub parsed : String → Loop W → Result Action → Turn W
  parsed raw s (err e) =
      let fb : String = "PARSE_ERROR: " +s message e in
      let raw_fields = field "raw" (str raw) (field "error" (str (message e)) end) in
      next (
        emit h feedback (feedback_fields "INVALID_ACTION" fb) (
          emit h action_proposed raw_fields
            (record s { counters = parse_failed s.counters; last_feedback = fb })))
  parsed raw s (ok action) =
      let fields = field "tool" (str action.tool) (field "arguments" (obj action.arguments) end) in
      let s1 = emit h action_proposed fields (record s { counters = parse_succeeded s.counters }) in
      dispatched action s1 (dispatch h.dispatcher action h.ctx s.world)

  -- after the model
  pub answered : Loop W → Result String × W → Turn W
  answered s (err e, w) = terminate h llm_error (record s { world = w })
  answered s (ok raw, w) = parsed raw (record s { world = w }) (h.parse_action raw)

  -- with the memories
  pub recalled : String → Loop W → Result (List Memory) × W → Turn W
  recalled task s (err e, w) = crash h s w
  recalled task s (ok memories, w) =
      let retries = h.config.limits.llm_max_retries in
      answered s (attempt h retries retries (build_messages h task s memories) w)

  pub is_cancelled : W → Bool × W
  is_cancelled w = ask h.cancel_check
    where
      ask : Option (W → Bool × W) → Bool × W
      ask none = (false, w)
      ask (some check) = check w

  -- past the limits: cancelled, or on to the turn's body
  pub continued : String → Loop W → Bool × W → Turn W
  continued task s (true, w) = terminate h cancelled (record s { world = w })
  continued task s (false, w) = recalled task (record s { world = w }) (retrieve_memories h w)

  pub checked : String → Loop W → Option Reason → Turn W
  checked task s (some reason) = terminate h reason s
  checked task s none = continued task s (is_cancelled s.world)

  pub timed : String → Loop W → ℕ × W → Turn W
  timed task s (seconds, w) =
      checked task (record s { world = w }) (decide_termination s.counters h.config.limits seconds)

  -- one turn of `while True`
  pub turn : String → Loop W → Turn W
  turn task s = timed task s (h.elapsed s.world)

  -- the turns after this one, at most as many as the fuel
  unfoldable pub resume : ℕ → String → Turn W → Option (Reason × Loop W)
  resume n task (stop reason s) = some (reason, s)
  resume zero task (next s) = none
  resume (suc n) task (next s) = resume n task (turn task s)

  abbrev pub initial : W → Loop W
  initial w = record {
    counters = zero_counters;
    last_feedback = "";
    recent_steps = [];
    tracker = [];
    log = [];
    world = w;
  }

  -- run
  unfoldable pub run : ℕ → String → W → Option (Reason × Loop W)
  run fuel task w = resume fuel task (next (initial w))
