-- ===== src/Loop/Termination.antt =====
-- aegiscode/loop/termination.py. Seconds are whole: a comparison of a time with a whole number of
-- seconds is that of its whole seconds.
pub mod Priority
use aegis_code.Prelude.{ℕ, String, Bool, true, false, Option, none, some, leb, if◌then◌else◌}
use aegis_code.Config.{Limits}

pub data Reason : Type 0 where
  completed finish_rejected max_steps consecutive_failures no_progress : Reason
  invalid_action_limit llm_error internal_error cancelled timeout : Reason

-- reason.value
abbrev pub reason_text : Reason → String
reason_text completed = "COMPLETED"
reason_text finish_rejected = "FINISH_REJECTED"
reason_text max_steps = "MAX_STEPS"
reason_text consecutive_failures = "CONSECUTIVE_FAILURES"
reason_text no_progress = "NO_PROGRESS"
reason_text invalid_action_limit = "INVALID_ACTION_LIMIT"
reason_text llm_error = "LLM_ERROR"
reason_text internal_error = "INTERNAL_ERROR"
reason_text cancelled = "CANCELLED"
reason_text timeout = "TIMEOUT"

abbrev pub is_completed : Reason → Bool
is_completed completed = true
is_completed _ = false

pub record LoopCounters : Type 0 where
  pub step : ℕ
  pub consecutive_failures : ℕ
  pub invalid_actions : ℕ
  pub no_progress_hits : ℕ

abbrev pub zero_counters : LoopCounters
zero_counters = record {
  step = 0;
  consecutive_failures = 0;
  invalid_actions = 0;
  no_progress_hits = 0;
}

-- decide_termination, with `limits` dumped from the configuration, so that every key is there
unfoldable pub decide_termination : LoopCounters → Limits → ℕ → Option Reason
decide_termination c limits elapsed_sec =
    if leb limits.wall_clock_timeout_sec elapsed_sec
    then some timeout
    else if leb limits.action_retry_limit c.invalid_actions
    then some invalid_action_limit
    else if leb limits.max_consecutive_failures c.consecutive_failures
    then some consecutive_failures
    else if leb limits.no_progress_repeat_limit c.no_progress_hits
    then some no_progress
    else if leb limits.max_steps c.step
    then some max_steps
    else none
