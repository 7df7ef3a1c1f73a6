-- ===== src/Audit/Chain.antt =====
-- `AuditLog` of aegiscode/audit/chain.py over the rows of the table `audit_events`, the oldest
-- first. `hashlib.sha256(…).hexdigest()`, `redact` and the clock are arguments; an insertion into
-- the table succeeds.
pub mod Valid
pub mod Pinned
mod Samples
use aegis_code.Prelude.{
  ℕ, ◌+◌, String, Bool, true, false, not, ◌&&◌, List, [], ◌∷◌, ◌++◌, Option, none, some, nat_eq,
  ◌==◌, if◌then◌else◌,
}
use aegis_code.Prelude.Text.{◌+s◌}
use aegis_code.Json.{num, str, obj, end, field}
use aegis_code.Json.Dumps.{dumps}
use aegis_code.Audit.Events.{EventType, event_value, Event}

-- a row without its event_id, which is its place
pub record Row : Type 0 where
  pub task_id : String
  pub step_index : ℕ
  pub timestamp : String
  pub event_type : String
  pub payload_json : String
  pub prev_hash : String
  pub hash : String

abbrev pub genesis : String
genesis = "0000000000000000000000000000000000000000000000000000000000000000"

-- str(event_type): the text of a member of an enumeration carries the name of its class.
abbrev pub str_event : EventType → String
str_event t = "EventType." +s event_value t

-- the text that is hashed behind the hash before it
pub body : String → ℕ → String → String → String → String
body task_id step_index event_type timestamp payload_json = dumps (
    obj (
      field "task_id" (str task_id) (
        field "step_index" (num step_index) (
          field "event_type" (str event_type)
            (field "timestamp" (str timestamp) (field "payload_json" (str payload_json) end))))))

-- the body of a stored row
unfoldable pub row_body : Row → String
row_body r = body r.task_id r.step_index r.event_type r.timestamp r.payload_json

-- WHERE task_id=? ORDER BY event_id
unfoldable pub task_rows : String → List Row → List Row
task_rows task_id [] = []
task_rows task_id (r ∷ rs) =
    if r.task_id == task_id then r ∷ task_rows task_id rs else task_rows task_id rs

-- the hash of the last row, or what there is without one
unfoldable pub last_hash : String → List Row → String
last_hash prev [] = prev
last_hash prev (r ∷ rs) = last_hash r.hash rs

-- _prev_hash
unfoldable pub prev_hash : String → List Row → String
unfolding last_hash task_rows
prev_hash task_id rows = last_hash genesis (task_rows task_id rows)

module _ (sha256 : String → String) where
  -- append: the table afterwards; the source also returns the new row's hash
  unfoldable pub append : (String → String) → String → Event → List Row → List Row
  unfolding prev_hash body
  append redact timestamp e rows =
      let payload_json = redact (dumps (obj e.payload)) in
      let prev = prev_hash e.task_id rows in
      let text = body e.task_id e.step_index (str_event e.event_type) timestamp payload_json in
      rows
      ++ record {
        task_id = e.task_id;
        step_index = e.step_index;
        timestamp = timestamp;
        event_type = str_event e.event_type;
        payload_json = payload_json;
        prev_hash = prev;
        hash = sha256 (prev +s text);
      }
        ∷ []

  -- a row against the hash before it
  unfoldable pub row_holds : String → Row → Bool
  unfolding row_body
  row_holds prev r = r.prev_hash == prev && (r.hash == sha256 (prev +s row_body r))

  -- the `for`: the step of the first row that does not hold, and how many rows held
  unfoldable pub walk : String → ℕ → List Row → Option ℕ × ℕ
  unfolding row_holds
  walk prev rows_walked [] = (none, rows_walked)
  walk prev rows_walked (r ∷ rs) =
      let rest = walk r.hash (rows_walked + 1) rs in
      if row_holds prev r then rest else (some r.step_index, rows_walked)

  -- whether the count is not the expected one
  abbrev miscounted : Option ℕ → ℕ → Bool
  miscounted none n = false
  miscounted (some expected_count) n = not (nat_eq n expected_count)

  unfoldable pub verdict_of : Option ℕ → Option ℕ × ℕ → Bool × Option ℕ
  verdict_of expected_count (some step_index, n) = (false, some step_index)
  verdict_of expected_count (none, n) =
      if miscounted expected_count n then (false, some n) else (true, none)

  -- verify_chain
  unfoldable pub verify_chain : String → Option ℕ → List Row → Bool × Option ℕ
  unfolding walk verdict_of task_rows
  verify_chain task_id expected_count rows =
      verdict_of expected_count (walk genesis 0 (task_rows task_id rows))
