-- ===== src/Loop/Harness.antt =====
-- `HarnessCore` of aegiscode/loop/harness.py: its state and the pieces of a step. What the
-- harness is given (the model's client, the parser, the clock, the resolver of approvals, the final
-- verifier, the memory store) is a field of `Harness`; `W` is the world these act on. The audit log
-- is the list of the events appended to it.
use aegis_code.Prelude.{
  ℕ, ◌+◌, ◌-◌, String, Bool, true, false, not, List, [], ◌∷◌, ◌++◌, Option, none, some, Result, ok,
  err, attribute_error, nat_eq, length, drop, if◌then◌else◌,
}
use aegis_code.Prelude.Text.{◌+s◌, is_empty}
use aegis_code.Json.{null, str, Fields, end, field, get_or, is_falsy}
use aegis_code.Tools.{status_text, Category, category_text, ToolResult, Ctx}
use aegis_code.Config.{AegisConfig}
use aegis_code.Context.{Message, StepRecord, Memory}
use aegis_code.Governance.Decision.{value, Verdict, Action}
use aegis_code.Governance.Dispatcher.{Dispatcher}
use aegis_code.Audit.Events.{Event}
use aegis_code.Loop.Termination.{Reason, LoopCounters}

-- a row of the memory store: where it comes from, and what it says
pub record MemoryRow : Type 0 where
  pub source : String
  pub memory : Memory

pub record PromptBuilder : Type 0 where
  pub system_prompt : ℕ → String
  pub tool_protocol : String

-- What `__init__` keeps. A resolver of approvals may change the action it is shown; the seconds
-- since the start are read from `elapsed`.
pub record Harness (W : Type 0) : Type 0 where
  pub complete : List Message → W → Result String × W
  pub parse_action : String → Result Action
  pub dispatcher : Dispatcher W
  pub sha256 : String → String
  pub config : AegisConfig
  pub ctx : Ctx
  pub final_verifier : W → Result Bool × W
  pub approval_resolver : Option (Action → Verdict → W → Result (Action × Bool) × W)
  pub cancel_check : Option (W → Bool × W)
  pub memory_store : Option (String → ℕ → W → Result (List MemoryRow) × W)
  pub project_id : Option String
  pub prompt_builder : Option PromptBuilder
  pub elapsed : W → ℕ × W

-- the variables of `run`, its log and its world
pub record Loop (W : Type 0) : Type 0 where
  pub counters : LoopCounters
  pub last_feedback : String
  pub recent_steps : List StepRecord
  pub tracker : List String
  pub log : List Event
  pub world : W

-- a turn stops the loop, or leads to the next one
pub data Turn (W : Type 0) : Type 0 where
  stop : Reason → Loop W → Turn W
  next : Loop W → Turn W

-- The ways in which a turn leaves the counters.
unfoldable pub parse_failed : LoopCounters → LoopCounters
parse_failed c = record c { invalid_actions = c.invalid_actions + 1 }

unfoldable pub parse_succeeded : LoopCounters → LoopCounters
parse_succeeded c = record c { invalid_actions = 0 }

unfoldable pub step_failed : LoopCounters → LoopCounters
step_failed c = record c { step = c.step + 1; consecutive_failures = c.consecutive_failures + 1 }

unfoldable pub step_settled : Bool → Option Category → LoopCounters → LoopCounters
unfolding step_failed
step_settled true cat c = record c { step = c.step + 1; no_progress_hits = c.no_progress_hits + 1 }
step_settled false (some cat) c = step_failed c
step_settled false none c = record c { step = c.step + 1; consecutive_failures = 0 }

-- failure_cat or "SUCCESS"
abbrev pub category_or_success : Option Category → String
category_or_success none = "SUCCESS"
category_or_success (some cat) = category_text cat

-- _format_feedback of a result that there is
unfoldable pub format_result : String → ToolResult → String
format_result category r =
    if is_empty r.detail_for_llm
    then category +s ": " +s r.summary
    else category +s ": " +s r.detail_for_llm

-- _format_feedback; without a result, reading its summary raises
unfoldable pub format_feedback : String → Option ToolResult → Result String
format_feedback category none = err (attribute_error "'NoneType' object has no attribute 'summary'")
format_feedback category (some r) = ok (format_result category r)

abbrev pub summary_of : Option ToolResult → String
summary_of none = ""
summary_of (some r) = r.summary

unfoldable pub settled_feedback : Bool → Option Category → ToolResult → String
settled_feedback true cat r = "NO_PROGRESS: repeated action detected"
settled_feedback false (some cat) r = format_result (category_text cat) r
settled_feedback false none r = ""

-- updated[-max_keep:], where `-0` keeps all
unfoldable pub keep_recent {ℓ} : {A : Type ℓ} → ℕ → List A → List A
keep_recent max_keep xs = if nat_eq max_keep 0 then xs else drop (length xs - max_keep) xs

-- _append_step
unfoldable pub append_step :
    ℕ → List StepRecord → Action → Verdict → String → String → List StepRecord
unfolding keep_recent
append_step max_steps recent_steps action v category summary = keep_recent max_steps (
    recent_steps
    ++ record {
      tool = action.tool;
      governance_decision = value v.decision;
      feedback_category = category;
      detail = summary;
    }
      ∷ [])

-- the payload of TOOL_EXECUTED
unfoldable pub tool_payload : Action → ToolResult → Fields
tool_payload action r =
    let changed_files = get_or "changed_files" null r.artifacts in
    field "tool" (str action.tool) (
      field "status" (str (status_text r.status))
        (if is_falsy changed_files then end else field "changed_files" changed_files end))

abbrev pub is_superseded : ToolResult → Bool
is_superseded r = not (is_falsy (get_or "superseded" null r.artifacts))
