-- ===== src/Loop/Turn/Journal.antt =====
-- What a turn of the loop leaves in the audit log and in the counters: the predicates, and what the
-- parts of aegiscode/loop/harness.py that a step ends with do to them.
use aegis_code.Prelude.{
  ◌+◌, ◌≤◌, ◌≡◌, refl, ap, Bool, true, false, List, [], ◌∷◌, ◌++◌, Option, none, some, Result, ok,
  err, All, All-append, arith, String, ◌==◌, Bool-cases, inl, inr, eq_iff,
}
use aegis_code.Json.{null, str, Fields, end, field, get, get_or}
use aegis_code.Tools.{Category, ToolResult}
use aegis_code.Governance.Decision.{Verdict, Action}
use aegis_code.Audit.Events.{EventType, tool_executed, feedback, termination, Event}
use aegis_code.Loop.Termination.{
  Reason, reason_text, completed, internal_error, LoopCounters, is_completed,
}
use aegis_code.Loop.Harness.{
  Harness, Loop, Turn, stop, next, step_failed, step_settled, tool_payload,
}
use aegis_code.Loop.Turn.{settled, verified, executed, refused}
use aegis_code.Loop.Parts.{emit, terminate, crash, remember_step, failing}

abbrev pub is_termination : EventType → Bool
is_termination termination = true
is_termination _ = false

-- no event of the log is the end of a run
abbrev pub Quiet : List Event → Type 0
Quiet log = All (λ e. is_termination e.event_type ≡ false) log

-- the counters after a step: one more step, and each other counter at most one more
pub record Stepped (c d : LoopCounters) : Type 0 where
  pub step : d.step ≡ c.step + 1
  pub invalid : d.invalid_actions ≡ 0
  pub consecutive_failures : d.consecutive_failures ≤ c.consecutive_failures + 1
  pub no_progress : d.no_progress_hits ≤ c.no_progress_hits + 1

module _ {W : Type 0} (h : Harness W) where
  -- the action `finish` ran last, before the log's last event, and the final verifier said yes
  pub record Finished (before : List Event) (s : Loop W) : Type 0 where
    pub earlier : List Event
    pub ran : Event
    pub last_before : before ≡ earlier ++ ran ∷ []
    pub is_run : ran.event_type ≡ tool_executed
    pub of_finish : get_or "tool" null ran.payload ≡ str "finish"
    pub asked : W
    pub answer : h.final_verifier asked ≡ (ok true, s.world)

  -- the log ends with its only TERMINATION, which names the reason
  pub record Closed (reason : Reason) (s : Loop W) : Type 0 where
    pub before : List Event
    pub quiet : Quiet before
    pub last : Event
    pub split : s.log ≡ before ++ last ∷ []
    pub is_last : last.event_type ≡ termination
    pub names : last.payload ≡ field "reason" (str (reason_text reason)) end
    pub finished : is_completed reason ≡ true → Finished before s

  -- after the rest of a step that began with the counters `c`
  unfoldable pub After : LoopCounters → Turn W → Type 0
  After c (stop reason s) = Closed reason s × (s.counters ≡ c)
  After c (next s) = Quiet s.log × Stepped c s.counters

  pub emit-Quiet :
      (t : EventType) (p : Fields) (s : Loop W)
      → is_termination t ≡ false
      → Quiet s.log
      → Quiet (emit h t p s).log
  unfolding emit
  emit-Quiet t p s e q = All-append _ s.log _ q (e, tt)

  pub terminate-Closed :
      (reason : Reason) (s : Loop W)
      → Quiet s.log
      → (is_completed reason ≡ true → Finished s.log s)
      → After s.counters (terminate h reason s)
  unfolding After terminate emit
  terminate-Closed reason s q f = (
    record {
      before = s.log;
      quiet = q;
      last = _;
      split = refl;
      is_last = refl;
      names = refl;
      finished = λ e.
          let f = f e in
          record {
            earlier = f.earlier;
            ran = f.ran;
            last_before = f.last_before;
            is_run = f.is_run;
            of_finish = f.of_finish;
            asked = f.asked;
            answer = f.answer;
          };
    },
    refl,
  )

  pub crash-After : (s : Loop W) (w : W) → Quiet s.log → After s.counters (crash h s w)
  unfolding crash
  crash-After s w q = terminate-Closed internal_error (record s { world = w }) q (λ e. ground arith)

  -- a step that failed, with what is told and remembered of it
  pub failing-After :
      (action : Action) (v : Verdict) (category summary fb : String) (s : Loop W)
      → s.counters.invalid_actions ≡ 0
      → Quiet s.log
      → After s.counters (next (remember_step h action v category summary (failing h fb s)))
  unfolding After remember_step failing step_failed
  failing-After action v category summary fb s e q = (
    q,
    record {
      step = refl;
      invalid = e;
      consecutive_failures = omega arith;
      no_progress = omega arith;
    },
  )

  pub refused-After :
      (action : Action) (v : Verdict) (s : Loop W) (summary : String) (r : Result String)
      → s.counters.invalid_actions ≡ 0
      → Quiet s.log
      → After s.counters (refused h action v s summary r)
  unfolding refused emit
  refused-After action v s summary (err e) z q = crash-After s s.world q
  refused-After action v s summary (ok fb) z q =
      failing-After action v _ summary fb (emit h feedback _ s) z (emit-Quiet feedback _ s refl q)

  settled-Stepped :
      (hit : Bool) (cat : Option Category) (c : LoopCounters)
      → c.invalid_actions ≡ 0
      → Stepped c (step_settled hit cat c)
  unfolding step_settled step_failed
  settled-Stepped true cat c e = record {
    step = refl;
    invalid = e;
    consecutive_failures = omega arith;
    no_progress = omega arith;
  }
  settled-Stepped false (some cat) c e = record {
    step = refl;
    invalid = e;
    consecutive_failures = omega arith;
    no_progress = omega arith;
  }
  settled-Stepped false none c e = record {
    step = refl;
    invalid = e;
    consecutive_failures = omega arith;
    no_progress = omega arith;
  }

  settled-After :
      (action : Action) (v : Verdict) (r : ToolResult) (progress : Bool × List String) (s : Loop W)
      → s.counters.invalid_actions ≡ 0
      → Quiet s.log
      → After s.counters (settled h action v r progress s)
  unfolding After settled remember_step emit
  settled-After action v r progress s e q =
      (All-append _ s.log _ q (refl, tt), settled-Stepped progress.0 _ s.counters e)

  verified-After :
      (s : Loop W) (answer : Result Bool × W)
      → h.final_verifier s.world ≡ answer
      → s.counters.invalid_actions ≡ 0
      → Quiet s.log
      → ((w : W) → answer ≡ (ok true, w) → Finished s.log (record s { world = w }))
      → After s.counters (verified h s answer)
  unfolding verified After failing step_failed emit
  verified-After s (err e, w) a z q f = crash-After s w q
  verified-After s (ok true, w) a z q f =
      terminate-Closed completed (record s { world = w }) q (λ _. f w refl)
  verified-After s (ok false, w) a z q f = (
    All-append _ s.log _ q (refl, tt),
    record {
      step = refl;
      invalid = z;
      consecutive_failures = omega arith;
      no_progress = omega arith;
    },
  )

  payload-tool :
      (action : Action) (r : ToolResult)
      → action.tool == "finish" ≡ true
      → get_or "tool" null (tool_payload action r) ≡ str "finish"
  unfolding get tool_payload
  payload-tool action r e = ap str ((eq_iff action.tool "finish").0 e)

  pub executed-After :
      (action : Action) (v : Verdict) (s : Loop W) (r : Option ToolResult)
      → s.counters.invalid_actions ≡ 0
      → Quiet s.log
      → After s.counters (executed h action v s r)
  unfolding executed emit
  executed-After action v s none z q = crash-After s s.world q
  executed-After action v s (some r) z q = elim (Bool-cases (action.tool == "finish")) [
    | inl e ↦ rw e (
        verified-After s1 _ refl z quiet λ w a. record {
          earlier = s.log;
          ran = _;
          last_before = refl;
          is_run = refl;
          of_finish = payload-tool action r e;
          asked = s.world;
          answer = a;
        })
    | inr e ↦ rw e (settled-After action v r _ s1 z quiet)
  ]
    where
      s1 : Loop W
      s1 = emit h tool_executed (tool_payload action r) s

      quiet : Quiet s1.log
      quiet = emit-Quiet tool_executed _ s refl q
