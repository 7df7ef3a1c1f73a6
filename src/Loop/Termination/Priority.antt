-- ===== src/Loop/Termination/Priority.antt =====
-- What `decide_termination` of aegiscode/loop/termination.py answers.
use aegis_code.Prelude.{ℕ, ◌<◌, ◌≡◌, ◌↔◌, false, none, some, arith}
use aegis_code.Config.{Limits}
use aegis_code.Loop.Termination.{Reason, is_completed, LoopCounters, decide_termination}

-- every counter is below its limit
pub record Live (limits : Limits) (c : LoopCounters) : Type 0 where
  pub step : c.step < limits.max_steps
  pub consecutive_failures : c.consecutive_failures < limits.max_consecutive_failures
  pub invalid : c.invalid_actions < limits.action_retry_limit
  pub no_progress : c.no_progress_hits < limits.no_progress_repeat_limit

module _ (c : LoopCounters) (limits : Limits) (elapsed_sec : ℕ) where
  pub decide_termination-completed :
      (r : Reason) → decide_termination c limits elapsed_sec ≡ some r → is_completed r ≡ false
  unfolding decide_termination
  decide_termination-completed r e = ground arith

  none-Live :
      decide_termination c limits elapsed_sec ≡ none
      → (elapsed_sec < limits.wall_clock_timeout_sec) × Live limits c
  unfolding decide_termination
  none-Live e = (
    ground arith,
    record {
      step = ground arith;
      consecutive_failures = ground arith;
      invalid = ground arith;
      no_progress = ground arith;
    },
  )

  Live-none :
      (elapsed_sec < limits.wall_clock_timeout_sec) × Live limits c
      → decide_termination c limits elapsed_sec ≡ none
  unfolding decide_termination
  Live-none (t, l) = ground (arith, l.step, l.consecutive_failures, l.invalid, l.no_progress)

  -- The loop goes on exactly as long as the time and every counter are below their limits.
  pub decide_termination-none :
      (decide_termination c limits elapsed_sec ≡ none)
      ↔ (elapsed_sec < limits.wall_clock_timeout_sec) × Live limits c
  decide_termination-none = (none-Live, Live-none)
