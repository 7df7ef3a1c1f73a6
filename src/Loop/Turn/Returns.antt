-- ===== src/Loop/Turn/Returns.antt =====
-- What a whole run of `HarnessCore` in aegiscode/loop/harness.py comes to.
use aegis_code.Prelude.{
  ℕ, zero, suc, ◌+◌, ◌-◌, ◌*◌, ◌≤◌, ◌<◌, ◌≡◌, refl, sym, ap, List, [], ◌∷◌, ◌++◌, Option, none,
  some, arith, String, subst, inl, inr,
}
use aegis_code.Config.{Limits}
use aegis_code.Json.{str, field, end}
use aegis_code.Audit.Events.{termination, Event}
use aegis_code.Loop.Termination.{
  Reason, reason_text, completed, is_completed, zero_counters, LoopCounters,
}
use aegis_code.Loop.Termination.Priority.{Live, decide_termination-none}
use aegis_code.Loop.Harness.{Harness, Loop, Turn, stop, next, parse_failed, parse_succeeded}
use aegis_code.Loop.Turn.{checked, timed, turn, resume, run, initial}
use aegis_code.Loop.Parts.{terminate}
use aegis_code.Loop.Turn.Journal.{Quiet, Closed, Finished}
use aegis_code.Loop.Turn.Stages.{Moved, retried, stepped, Sound, turn-Sound}

-- no counter is past its limit
pub record Within (limits : Limits) (c : LoopCounters) : Type 0 where
  pub step : c.step ≤ limits.max_steps
  pub consecutive_failures : c.consecutive_failures ≤ limits.max_consecutive_failures
  pub invalid : c.invalid_actions ≤ limits.action_retry_limit
  pub no_progress : c.no_progress_hits ≤ limits.no_progress_repeat_limit

Moved-Within : (limits : Limits) (c d : LoopCounters) → Live limits c → Moved c d → Within limits d
unfolding parse_failed
Moved-Within limits c d l (retried e) = subst (Within limits) (sym e) (record {
  step = omega (arith, l.step);
  consecutive_failures = omega (arith, l.consecutive_failures);
  invalid = omega (arith, l.invalid);
  no_progress = omega (arith, l.no_progress);
})
Moved-Within limits c d l (stepped s) = record {
  step = omega (arith, l.step, s.step);
  consecutive_failures = omega (arith, l.consecutive_failures, s.consecutive_failures);
  invalid = omega (arith, l.invalid, s.invalid);
  no_progress = omega (arith, l.no_progress, s.no_progress);
}

-- how many more turns may lead to a next one
abbrev pub turns_left : Limits → LoopCounters → ℕ
turns_left limits c =
    (limits.max_steps - c.step) * (limits.action_retry_limit + 1)
    + (limits.action_retry_limit - c.invalid_actions)

-- the fuel for a whole run
abbrev pub turn_bound : Limits → ℕ
turn_bound limits =
    limits.max_steps * (limits.action_retry_limit + 1) + limits.action_retry_limit + 1

one_step_less :
    (m s r i : ℕ) → s < m → i < r → (m - (s + 1)) * (r + 1) + (r - 0) < (m - s) * (r + 1) + (r - i)
one_step_less m s r i lt li = rw sub_step (omega (arith, li, mul_step (m - (s + 1)) (r + 1)))
  where
    mul_step : (k n : ℕ) → suc k * n ≡ k * n + n
    mul_step k n = omega arith

    sub_step : m - s ≡ suc (m - (s + 1))
    sub_step = omega (arith, lt)

Moved-turns_left :
    (limits : Limits) (c d : LoopCounters)
    → Live limits c
    → Moved c d
    → turns_left limits d < turns_left limits c
unfolding parse_failed
Moved-turns_left limits c d l (retried e) =
    subst (λ d. turns_left limits d < turns_left limits c) (sym e) (omega (arith, l.invalid))
Moved-turns_left limits c d l (stepped s) =
    rw (s.step, s.invalid)
      (one_step_less limits.max_steps c.step limits.action_retry_limit c.invalid_actions l.step
        l.invalid)

start_turns : (limits : Limits) → turns_left limits zero_counters < turn_bound limits
start_turns limits = rw (sub_zero limits.max_steps) (omega arith)
  where
    sub_zero : (n : ℕ) → n - 0 ≡ n
    sub_zero n = omega arith

module _ {W : Type 0} (h : Harness W) (task : String) where
  checked-none : (s t : Loop W) (o : Option Reason) → checked h task s o ≡ next t → o ≡ none
  unfolding checked terminate
  checked-none s t none e = refl
  checked-none s t (some r) e = ground arith

  timed-Live :
      (s t : Loop W) (clock : ℕ × W)
      → timed h task s clock ≡ next t
      → Live h.config.limits s.counters
  unfolding timed
  timed-Live s t (seconds, w) e =
      ((decide_termination-none s.counters h.config.limits seconds).0
        (checked-none (record s { world = w }) t _ e)).1

  pub turn-Live : (s t : Loop W) → turn h task s ≡ next t → Live h.config.limits s.counters
  unfolding turn
  turn-Live s t e = timed-Live s t _ e

  -- a turn that leads on does so with fuel for the rest
  unfoldable pub Fueled : ℕ → Turn W → Type 0
  Fueled n (stop reason s) = Unit
  Fueled n (next s) = Quiet s.log × (turns_left h.config.limits s.counters < n)

  -- what holds between the turns, and at the end
  Entry : Turn W → Type 0
  Entry (stop reason s) = Closed h reason s × Within h.config.limits s.counters
  Entry (next s) = Quiet s.log × Within h.config.limits s.counters

  Sound-Entry :
      (s : Loop W) (t : Turn W)
      → Within h.config.limits s.counters
      → turn h task s ≡ t
      → Sound h s.counters t
      → Entry t
  unfolding Entry Sound parse_succeeded
  Sound-Entry s (stop reason t) b e (closed, inl same) =
      (closed, subst (Within h.config.limits) (sym same) b)
  Sound-Entry s (stop reason t) b e (closed, inr reset) = (
    closed,
    subst (Within h.config.limits) (sym reset) (record {
      step = b.step;
      consecutive_failures = b.consecutive_failures;
      invalid = omega arith;
      no_progress = b.no_progress;
    }),
  )
  Sound-Entry s (next t) b e (quiet, moved) =
      (quiet, Moved-Within h.config.limits s.counters t.counters (turn-Live s t e) moved)

  -- what holds of the result of a run
  unfoldable pub Ended : Option (Reason × Loop W) → Type 0
  Ended none = Unit
  Ended (some (reason, s)) = Closed h reason s × Within h.config.limits s.counters

  resume-Ended : (n : ℕ) (t : Turn W) → Entry t → Ended (resume h n task t)
  unfolding Entry Ended resume
  resume-Ended zero (stop reason s) e = e
  resume-Ended (suc n) (stop reason s) e = e
  resume-Ended zero (next s) e = tt
  resume-Ended (suc n) (next s) (quiet, within) =
      resume-Ended n (turn h task s) (Sound-Entry s _ within refl (turn-Sound h task s quiet))

  next-turns_left :
      (n : ℕ) (s : Loop W) (t : Turn W)
      → turn h task s ≡ t
      → Sound h s.counters t
      → turns_left h.config.limits s.counters < suc n
      → Fueled n t
  unfolding Sound Fueled
  next-turns_left n s (stop reason t) e sound lt = tt
  next-turns_left n s (next t) e (quiet, moved) lt = (
    quiet,
    omega
        (arith, lt, Moved-turns_left h.config.limits s.counters t.counters (turn-Live s t e) moved),
  )

  resume-returns :
      (n : ℕ) (t : Turn W) → Fueled n t → (out : Reason × Loop W) × (resume h n task t ≡ some out)
  unfolding Fueled resume
  resume-returns zero (stop reason s) f = ((reason, s), refl)
  resume-returns (suc n) (stop reason s) f = ((reason, s), refl)
  resume-returns zero (next s) (quiet, lt) = ground arith
  resume-returns (suc n) (next s) (quiet, lt) =
      resume-returns n (turn h task s) (next-turns_left n s _ refl (turn-Sound h task s quiet) lt)

  -- With fuel for `turn_bound` turns a run returns, whatever the model answers, the tools do, the
  -- approver says and the clock shows.
  pub run-returns :
      (fuel : ℕ) (w : W)
      → turn_bound h.config.limits ≤ fuel
      → (out : Reason × Loop W) × (run h fuel task w ≡ some out)
  unfolding run Fueled
  run-returns fuel w le =
      resume-returns fuel (next (initial h w)) (tt, omega (arith, le, start_turns h.config.limits))

  run-Ended : (fuel : ℕ) (w : W) → Ended (run h fuel task w)
  unfolding run Entry
  run-Ended fuel w = resume-Ended fuel (next (initial h w)) (
    tt,
    record {
      step = omega arith;
      consecutive_failures = omega arith;
      invalid = omega arith;
      no_progress = omega arith;
    },
  )

  module _ (fuel : ℕ) (w : W) (reason : Reason) (s : Loop W)
      (e : run h fuel task w ≡ some (reason, s)) where
    ended : Closed h reason s × Within h.config.limits s.counters
    unfolding Ended
    ended = subst Ended e (run-Ended fuel w)

    -- The log of a run that returned ends with a TERMINATION that names the returned reason, and
    -- no other event of it is a TERMINATION.
    pub run-Closed :
        (before : List Event) × (last : Event) × (s.log ≡ before ++ last ∷ [])
        × Quiet before
        × (last.event_type ≡ termination)
        × (last.payload ≡ field "reason" (str (reason_text reason)) end)
    run-Closed = let c = ended.0 in (c.before, c.last, c.split, c.quiet, c.is_last, c.names)

    -- When a run has returned, no counter is past its limit.
    pub run-Within : Within h.config.limits s.counters
    run-Within = ended.1

    -- A run returns COMPLETED only where the final verifier's last word was yes and the log ends
    -- with the run of the tool `finish` and the TERMINATION.
    pub run-Finished :
        reason ≡ completed
        → (before : List Event) × (last : Event) × (s.log ≡ before ++ last ∷ [])
          × Finished h before s
    run-Finished r = let c = ended.0 in (c.before, c.last, c.split, c.finished (ap is_completed r))
