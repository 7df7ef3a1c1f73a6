-- ===== src/Demo/Scenarios.antt =====
-- aegiscode/demo/scenarios.py: the outcome of a run from the rows of its log, and the three scenarios.
-- `json.loads` is a parameter, with nothing for a text that it refuses or that is no mapping.
use aegis_code.Prelude.{
  ℕ, ◌+◌, String, Bool, false, List, [], ◌∷◌, ◌++◌, Option, none, some, ◌==◌, any, if◌then◌else◌,
}
use aegis_code.Json.{Json, null, str, Fields, end, field, get_or, put}
use aegis_code.Audit.Chain.{Row}

pub record RunOutcome : Type 0 where
  pub scenario_id : String
  pub final_state : String
  pub events : List Fields
  pub tool_execution_count : ℕ
  pub governance_decisions : List Fields
  pub approval_states : List Json

-- x == text, for a value under a key
abbrev pub is_value : String → Json → Bool
is_value text (str s) = s == text
is_value text _ = false

abbrev under : String → Fields → Json
under k fs = get_or k null fs

-- has_deny
pub has_deny : RunOutcome → Bool
has_deny o = any (λ d. is_value "DENY" (under "decision" d)) o.governance_decisions

first_deny_rule : List Fields → Json
first_deny_rule [] = null
first_deny_rule (d ∷ ds) =
    if is_value "DENY" (under "decision" d) then under "rule" d else first_deny_rule ds

-- deny_rule_id
pub deny_rule_id : RunOutcome → Json
unfolding first_deny_rule
deny_rule_id o = first_deny_rule o.governance_decisions

abbrev present : Json → List Json → List Json
present null rest = rest
present v rest = v ∷ rest

categories_of : List Fields → List Json
categories_of [] = []
categories_of (ev ∷ evs) =
    let rest = categories_of evs in
    if is_value "FEEDBACK" (under "event_type" ev) then present (under "category" ev) rest else rest

-- feedback_categories
pub feedback_categories : RunOutcome → List Json
unfolding categories_of
feedback_categories o = categories_of o.events

-- what follows the first value that is a text, as `index` finds it
behind_first : String → List Json → Option (List Json)
behind_first text [] = none
behind_first text (v ∷ vs) = if is_value text v then some vs else behind_first text vs

abbrev pub among : String → List Json → Bool
among text vs = any (is_value text) vs

-- approved_then_superseded
pub approved_then_superseded : RunOutcome → Bool
unfolding behind_first
approved_then_superseded o = elim (behind_first "APPROVED" o.approval_states) [
  | none ↦ false
  | some rest ↦ among "SUPERSEDED" rest
]

-- {"event_type": …, **payload}
merge : Fields → Fields → Fields
unfolding put
merge fs end = fs
merge fs (field k v gs) = merge (put k v fs) gs

module _ (loads : String → Option Fields) where
  -- _payload_of a stored row
  pub payload_of : Row → Fields
  payload_of r = elim (loads r.payload_json) [ none ↦ end | some payload ↦ payload ]

  -- the body of the `for`
  unfoldable pub note_event : RunOutcome → Row → RunOutcome
  unfolding payload_of merge
  note_event o r =
      let payload = payload_of r in
      let seen = record o {
        events = o.events ++ merge (field "event_type" (str r.event_type) end) payload ∷ [];
      } in
      if r.event_type == "TOOL_EXECUTED"
      then record seen { tool_execution_count = o.tool_execution_count + 1 }
      else if r.event_type == "GOVERNANCE_DECISION"
      then record seen { governance_decisions = o.governance_decisions ++ payload ∷ [] }
      else if r.event_type == "APPROVAL_DECIDED"
      then record seen { approval_states = o.approval_states ++ present (under "state" payload) [] }
      else seen

  unfoldable pub note_events : RunOutcome → List Row → RunOutcome
  unfolding note_event
  note_events o [] = o
  note_events o (r ∷ rs) = note_events (note_event o r) rs

  -- build_run_outcome
  unfoldable pub build_run_outcome : String → String → List Row → RunOutcome
  unfolding note_events
  build_run_outcome scenario_id final_state rows =
      note_events
        (record {
          scenario_id = scenario_id;
          final_state = final_state;
          events = [];
          tool_execution_count = 0;
          governance_decisions = [];
          approval_states = [];
        })
        rows
