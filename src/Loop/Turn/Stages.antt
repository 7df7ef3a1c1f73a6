-- ===== src/Loop/Turn/Stages.antt =====
-- The turn of aegiscode/loop/harness.py from its start: the limits, the model, the parser, the
-- dispatcher and the approval.
use aegis_code.Prelude.{
  ℕ, ◌≡◌, refl, Bool, true, false, List, Option, none, some, Result, ok, err, All-append, arith,
  String, Bool-cases, inl, inr, ◌⊎◌,
}
use aegis_code.Json.{Fields, field, end, str, obj}
use aegis_code.Context.{Memory}
use aegis_code.Tools.{ToolResult}
use aegis_code.Governance.Decision.{is_deny, is_require_approval, Verdict, Action}
use aegis_code.Governance.Dispatcher.{dispatch, Dispatched, Executed}
use aegis_code.Audit.Events.{action_proposed, governance_decision, approval_decided}
use aegis_code.Loop.Termination.{Reason, llm_error, cancelled, LoopCounters, is_completed}
use aegis_code.Loop.Termination.Priority.{decide_termination-completed}
use aegis_code.Loop.Harness.{
  Harness, Loop, Turn, stop, next, is_superseded, parse_failed, parse_succeeded,
}
use aegis_code.Loop.Turn.{
  judged, approved, resolved, dispatched, parsed, answered, recalled, continued, checked, timed,
  turn,
}
use aegis_code.Loop.Parts.{emit, terminate}
use aegis_code.Loop.Turn.Journal.{
  Quiet, Stepped, Closed, After, emit-Quiet, terminate-Closed, crash-After, failing-After,
  refused-After, executed-After,
}

-- A turn's counters: a reply that is no action counts as such and is no step.
pub data Moved (c d : LoopCounters) : Type 0 where
  retried : d ≡ parse_failed c → Moved c d
  stepped : Stepped c d → Moved c d

module _ {W : Type 0} (h : Harness W) where
  judged-After :
      (action : Action) (v : Verdict) (r : Option ToolResult) (s : Loop W)
      → s.counters.invalid_actions ≡ 0
      → Quiet s.log
      → After h s.counters (judged h action v r s)
  unfolding judged
  judged-After action v r s z q = elim (Bool-cases (is_deny v.decision)) [
    | inl e ↦ rw e (refused-After h action v s _ _ z q)
    | inr e ↦ rw e (executed-After h action v s r z q)
  ]

  approved-After :
      (action : Action) (v : Verdict) (s : Loop W) (out : Executed W)
      → s.counters.invalid_actions ≡ 0
      → Quiet s.log
      → After h s.counters (approved h action v s out)
  unfolding approved emit
  approved-After action v s (err e, w) z q = crash-After h s w q
  approved-After action v s (ok r, w) z q = elim (Bool-cases (is_superseded r)) [
    | inl e ↦ rw e (
        refused-After h action v (emit h approval_decided _ s1) r.summary _ z
          (emit-Quiet h approval_decided _ s1 refl q))
    | inr e ↦ rw e (
        judged-After action v (some r) (emit h approval_decided _ s1) z
          (emit-Quiet h approval_decided _ s1 refl q))
  ]
    where
      s1 : Loop W
      s1 = record s { world = w }

  resolved-After :
      (fp : String) (v : Verdict) (s : Loop W) (answer : Result (Action × Bool) × W)
      → s.counters.invalid_actions ≡ 0
      → Quiet s.log
      → After h s.counters (resolved h fp v s answer)
  unfolding resolved emit
  resolved-After fp v s (err e, w) z q = crash-After h s w q
  resolved-After fp v s (ok (action, true), w) z q = approved-After action v s _ z q
  resolved-After fp v s (ok (action, false), w) z q =
      failing-After h action v _ _ _ (emit h approval_decided _ (record s { world = w })) z
        (emit-Quiet h approval_decided _ (record s { world = w }) refl q)

  dispatched-After :
      (action : Action) (s : Loop W) (out : Dispatched W)
      → s.counters.invalid_actions ≡ 0
      → Quiet s.log
      → After h s.counters (dispatched h action s out)
  unfolding dispatched emit
  dispatched-After action s (err e, w) z q = crash-After h s w q
  dispatched-After action s (ok (v, r), w) z q =
      elim (Bool-cases (is_require_approval v.decision)) [
        | inl e ↦ rw e (resolved-After _ v (emit h governance_decision _ s1) _ z (quiet _))
        | inr e ↦ rw e (judged-After action v r (emit h governance_decision _ s1) z (quiet _))
      ]
    where
      s1 : Loop W
      s1 = record s { world = w }

      quiet : (p : Fields) → Quiet (emit h governance_decision p s1).log
      quiet p = emit-Quiet h governance_decision p s1 refl q

  -- after a turn that began with the counters `c`
  unfoldable pub Sound : LoopCounters → Turn W → Type 0
  Sound c (stop reason s) =
      Closed h reason s × ((s.counters ≡ c) ⊎ (s.counters ≡ parse_succeeded c))
  Sound c (next s) = Quiet s.log × Moved c s.counters

  After-Sound : (c : LoopCounters) (t : Turn W) → After h (parse_succeeded c) t → Sound c t
  unfolding After Sound parse_succeeded
  After-Sound c (stop reason s) a = (a.0, inr a.1)
  After-Sound c (next s) a = (
    a.0,
    stepped (record {
      step = a.1.step;
      invalid = a.1.invalid;
      consecutive_failures = a.1.consecutive_failures;
      no_progress = a.1.no_progress;
    }),
  )

  succeeded-invalid : (c : LoopCounters) → (parse_succeeded c).invalid_actions ≡ 0
  unfolding parse_succeeded
  succeeded-invalid c = refl

  same-Sound : (c : LoopCounters) (t : Turn W) → After h c t → Sound c t
  unfolding After Sound
  same-Sound c (stop reason s) a = (a.0, inl a.1)
  same-Sound c (next s) a = (a.0, stepped a.1)

  terminate-Sound :
      (reason : Reason) (s : Loop W)
      → is_completed reason ≡ false
      → Quiet s.log
      → Sound s.counters (terminate h reason s)
  terminate-Sound reason s e q =
      same-Sound s.counters _ (terminate-Closed h reason s q λ f. ground (arith, e, f))

  parsed-Sound :
      (raw : String) (s : Loop W) (r : Result Action)
      → Quiet s.log
      → Sound s.counters (parsed h raw s r)
  unfolding parsed emit Sound
  parsed-Sound raw s (err e) q =
      (All-append _ _ _ (All-append _ s.log _ q (refl, tt)) (refl, tt), retried refl)
  parsed-Sound raw s (ok action) q = After-Sound s.counters _ (
      parsed-After (record s { counters = parse_succeeded s.counters }) q
        (succeeded-invalid s.counters))
    where
      fields : Fields
      fields = field "tool" (str action.tool) (field "arguments" (obj action.arguments) end)

      parsed-After :
          (s1 : Loop W)
          → Quiet s1.log
          → s1.counters.invalid_actions ≡ 0
          → After h s1.counters (
              dispatched h action
                (emit h action_proposed fields s1)
                (dispatch h.dispatcher action h.ctx s1.world))
      parsed-After s1 q z =
          dispatched-After action (emit h action_proposed fields s1) _ z
            (emit-Quiet h action_proposed fields s1 refl q)

  answered-Sound :
      (s : Loop W) (reply : Result String × W) → Quiet s.log → Sound s.counters (answered h s reply)
  unfolding answered
  answered-Sound s (err e, w) q = terminate-Sound llm_error (record s { world = w }) refl q
  answered-Sound s (ok raw, w) q = parsed-Sound raw (record s { world = w }) _ q

  recalled-Sound :
      (task : String) (s : Loop W) (rows : Result (List Memory) × W)
      → Quiet s.log
      → Sound s.counters (recalled h task s rows)
  unfolding recalled
  recalled-Sound task s (err e, w) q = same-Sound s.counters _ (crash-After h s w q)
  recalled-Sound task s (ok memories, w) q = answered-Sound s _ q

  continued-Sound :
      (task : String) (s : Loop W) (answer : Bool × W)
      → Quiet s.log
      → Sound s.counters (continued h task s answer)
  unfolding continued
  continued-Sound task s (true, w) q = terminate-Sound cancelled (record s { world = w }) refl q
  continued-Sound task s (false, w) q = recalled-Sound task (record s { world = w }) _ q

  checked-Sound :
      (task : String) (s : Loop W) (o : Option Reason)
      → ((r : Reason) → o ≡ some r → is_completed r ≡ false)
      → Quiet s.log
      → Sound s.counters (checked h task s o)
  unfolding checked
  checked-Sound task s (some r) e q = terminate-Sound r s (e r refl) q
  checked-Sound task s none e q = continued-Sound task s _ q

  timed-Sound :
      (task : String) (s : Loop W) (clock : ℕ × W)
      → Quiet s.log
      → Sound s.counters (timed h task s clock)
  unfolding timed
  timed-Sound task s (seconds, w) q =
      checked-Sound task (record s { world = w }) _
        (decide_termination-completed s.counters h.config.limits seconds) q

  pub turn-Sound : (task : String) (s : Loop W) → Quiet s.log → Sound s.counters (turn h task s)
  unfolding turn
  turn-Sound task s q = timed-Sound task s _ q
