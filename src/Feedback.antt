-- ===== src/Feedback.antt =====
-- aegiscode/feedback/classifier.py
pub mod Window
use aegis_code.Prelude.{
  ℕ, ◌-◌, String, Bool, true, false, ◌&&◌, ◌||◌, List, [], ◌∷◌, ◌++◌, Option, none, some, ◌==◌,
  length, drop, if◌then◌else◌,
}
use aegis_code.Prelude.Text.{mem_text}
use aegis_code.Tools.{
  Status, success, failure, denied, error, Category, test_failure, tool_error, policy_denied,
  approval_rejected, invalid_action, timeout, no_progress, internal_error, ToolResult,
}

-- the two tests on the status, for a result without a category that is passed on
by_status : String → Status → Option Category
by_status tool failure = if tool == "run_tests" then some test_failure else some tool_error
by_status tool error = some tool_error
by_status tool _ = none

classify_in : Option Category → String → Status → Option Category
unfolding by_status
classify_in none tool status = by_status tool status
classify_in (some test_failure) tool status = by_status tool status
classify_in (some c) tool status = some c

-- classify
unfoldable pub classify : ToolResult → Option Category
unfolding classify_in
classify r = classify_in r.category r.tool r.status

-- deque(maxlen=window): an append drops from the left what is too much
abbrev pub keep_last {ℓ} : {A : Type ℓ} → ℕ → List A → List A
keep_last window xs = drop (length xs - window) xs

-- ProgressTracker.seen: whether the fingerprint is among the recent ones, which it then joins
pub seen : ℕ → String → List String → Bool × List String
unfolding mem_text
seen window fp recent = (mem_text fp recent, keep_last window (recent ++ fp ∷ []))
