-- ===== src/Context.antt =====
-- aegiscode/memory/context_builder.py: the messages of one turn, within a budget of characters.
pub mod Budget
mod Samples
use aegis_code.Prelude.{
  ℕ, zero, suc, ◌+◌, String, Bool, true, false, not, ◌&&◌, List, [], ◌∷◌, ◌++◌, map, leb, ltb,
  if◌then◌else◌,
}
use aegis_code.Prelude.Text.{◌+s◌, is_empty, text_length, join_with}
use aegis_code.Prelude.Text.Repr.{decimal}

pub record Message : Type 0 where
  pub role : String
  pub content : String

-- a record of `_append_step`
pub record StepRecord : Type 0 where
  pub tool : String
  pub governance_decision : String
  pub feedback_category : String
  pub detail : String

pub record Memory : Type 0 where
  pub key : String
  pub text : String

abbrev message : String → String → Message
message role content = record { role = role; content = content }

-- summarize_step
unfoldable pub summarize_step : StepRecord → String
summarize_step s =
    "[step tool=" +s s.tool +s " decision=" +s s.governance_decision +s " feedback="
    +s s.feedback_category +s "]"

-- _len
unfoldable pub total_length : List Message → ℕ
unfolding text_length
total_length [] = 0
total_length (m ∷ ms) = text_length m.content + total_length ms

abbrev pub head_messages : String → String → String → List Message
head_messages system_prompt tool_protocol task =
    message "system" (system_prompt +s "\n" +s tool_protocol)
    ∷ message "user" ("TASK: " +s task)
    ∷ []

memory_line : Memory → String
memory_line m = "- " +s m.key +s ": " +s m.text

pub tail_messages : String → List Memory → List Message
unfolding memory_line join_with
tail_messages last_feedback memories =
    let mem_txt = join_with "\n" (map memory_line memories) in
    (if is_empty last_feedback then [] else message "user" ("FEEDBACK:\n" +s last_feedback) ∷ [])
    ++ (if is_empty mem_txt then [] else message "system" ("MEMORY:\n" +s mem_txt) ∷ [])

-- the message of a step in full, at its place in the list
pub detailed_step : ℕ → StepRecord → Message
unfolding decimal
detailed_step i s =
    message "assistant"
      ("step " +s decimal i +s ": " +s s.tool +s " -> " +s s.feedback_category +s "\n" +s s.detail)

abbrev pub short_step : StepRecord → Message
short_step s = message "assistant" (summarize_step s)

-- the list comprehension over the recent steps
pub detailed_from : ℕ → List StepRecord → List Message
detailed_from i [] = []
detailed_from i (s ∷ ss) = detailed_step i s ∷ detailed_from (i + 1) ss

-- The `while`: `done` has been summarised, `rest` is still in full, from place `i` on.
pub shrink : ℕ → List Message → List Message → List Message → ℕ → List StepRecord → List Message
shrink budget head tail done i [] = head ++ done ++ tail
shrink budget head tail done i (s ∷ ss) =
    let msgs = head ++ done ++ detailed_from i (s ∷ ss) ++ tail in
    let shorter = shrink budget head tail (done ++ short_step s ∷ []) (i + 1) ss in
    if ltb budget (total_length msgs) then shorter else msgs

-- build_context
pub build_context :
    String → String → String → List StepRecord → String → List Memory → ℕ → List Message
build_context system_prompt tool_protocol task recent_steps last_feedback memories budget_chars =
    shrink budget_chars (head_messages system_prompt tool_protocol task)
      (tail_messages last_feedback memories) [] 0 recent_steps
