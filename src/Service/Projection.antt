-- ===== src/Service/Projection.antt =====
-- The readers of the audit log: `ApplicationService._project_steps` of
-- aegiscode/service/app_service.py, and `latest_action_step_index` of
-- aegiscode/persistence/repositories.py. `json.loads` is a parameter, with nothing for a text that
-- it refuses; the payloads are mappings.
pub mod Unread
mod Samples
use aegis_code.Prelude.{
  ℕ, String, Bool, true, false, ◌&&◌, List, [], ◌∷◌, map, length, Option, none, some, nat_eq, ltb,
  ◌==◌, if◌then◌else◌,
}
use aegis_code.Json.{Json, null, str, obj, Fields, end, get_or}
use aegis_code.Json.Dumps.{dumps}
use aegis_code.Audit.Events.{event_value, action_proposed, governance_decision, feedback}
use aegis_code.Audit.Chain.{Row, task_rows}

-- SELECT step_index … WHERE task_id=? AND event_type=? ORDER BY event_id DESC LIMIT 1
last_step : ℕ → String → String → List Row → ℕ
last_step found task_id event_type [] = found
last_step found task_id event_type (r ∷ rs) =
    let later = last_step r.step_index task_id event_type rs in
    let same = last_step found task_id event_type rs in
    if r.task_id == task_id && r.event_type == event_type then later else same

-- latest_action_step_index
pub latest_action_step_index : String → List Row → ℕ
latest_action_step_index task_id rows = last_step 0 task_id "ACTION_PROPOSED" rows

-- a value of `step_map`: a missing key reads as an empty payload
pub record Entry : Type 0 where
  pub action : Fields
  pub governance : Fields
  pub feedback : Fields

abbrev empty_entry : Entry
empty_entry = record { action = end; governance = end; feedback = end }

-- step_map.setdefault(si, {}) and the change of the entry, with the keys in ascending order
update_entry : ℕ → (Entry → Entry) → List (ℕ × Entry) → List (ℕ × Entry)
update_entry si f [] = (si, f empty_entry) ∷ []
update_entry si f ((sj, entry) ∷ rest) =
    let behind = update_entry si f rest in
    if nat_eq si sj
    then (sj, f entry) ∷ rest
    else if ltb si sj
    then (si, f empty_entry) ∷ (sj, entry) ∷ rest
    else (sj, entry) ∷ behind

-- the arguments of StepRepository.insert, less the constants
pub record StepRow : Type 0 where
  pub step_index : ℕ
  pub action_json : String
  pub governance_decision : Json
  pub triggered_rule_id : Json
  pub feedback_category : Json

step_row : ℕ × Entry → StepRow
step_row (si, entry) = record {
  step_index = si;
  action_json = dumps (obj entry.action);
  governance_decision = get_or "decision" (str "") entry.governance;
  triggered_rule_id = get_or "rule" null entry.governance;
  feedback_category = get_or "category" (str "") entry.feedback;
}

module _ (loads : String → Option Fields) where
  payload_of : String → Fields
  payload_of payload_json = elim (loads payload_json) [ none ↦ end | some payload ↦ payload ]

  -- the body of the first `for`
  note_row : Row → List (ℕ × Entry) → List (ℕ × Entry)
  unfolding payload_of
  note_row r step_map =
      let payload = payload_of r.payload_json in
      if r.event_type == event_value action_proposed
      then update_entry r.step_index (λ entry. record entry { action = payload }) step_map
      else if r.event_type == event_value governance_decision
      then update_entry r.step_index (λ entry. record entry { governance = payload }) step_map
      else if r.event_type == event_value feedback
      then update_entry r.step_index (λ entry. record entry { feedback = payload }) step_map
      else step_map

  note_rows : List Row → List (ℕ × Entry) → List (ℕ × Entry)
  note_rows [] step_map = step_map
  note_rows (r ∷ rs) step_map = note_rows rs (note_row r step_map)

  -- _project_steps: the rows inserted, whose number is the count returned
  pub project_steps : String → List Row → List StepRow
  project_steps task_id rows = map step_row (note_rows (task_rows task_id rows) [])
