-- ===== src/Demo/Events/Summary/Samples.antt =====
-- Two logs that differ in an action's arguments, as aegiscode/demo/service.py summarizes them.
use aegis_code.Prelude.{◌≡◌, refl, String, List, [], ◌∷◌, Option, none, some, ◌==◌, if◌then◌else◌}
use aegis_code.Json.{obj, str, Fields, field, end, get}
use aegis_code.Audit.Chain.{Row}
use aegis_code.Demo.Events.{normalize_event_type, normalize_events}
use aegis_code.Demo.Events.Summary.{
  Alike, payload_of, blank, summarize_steps, summarize_steps-hides,
}

-- the fields of a call that writes a key
abbrev writing_key : Fields
writing_key =
    field "tool" (str "write_file")
      (field "arguments" (obj (field "content" (str "KEY=1") end)) end)

-- a payload with the key, and one without
abbrev read_payload : String → Option Fields
read_payload text =
    if text == "with the key"
    then some writing_key
    else if text == "without"
    then some (field "tool" (str "write_file") end)
    else none

abbrev row_of : String → Row
row_of payload_json = record {
  task_id = "t1";
  step_index = 3;
  timestamp = "now";
  event_type = "EventType.ACTION_PROPOSED";
  payload_json = payload_json;
  prev_hash = "";
  hash = payload_json;
}

abbrev rows_of : String → List Row
rows_of payload_json = normalize_events (row_of payload_json ∷ [])

rows-Alike : Alike read_payload (rows_of "with the key") (rows_of "without")
unfolding Alike get normalize_events
rows-Alike = (
  refl,
  refl,
  record { tool = refl; decision = refl; state = refl; status = refl; category = refl },
  tt,
)

summarize_steps-hides_example :
    summarize_steps read_payload (rows_of "with the key")
    ≡ summarize_steps read_payload (rows_of "without")
summarize_steps-hides_example = summarize_steps-hides read_payload _ _ rows-Alike

summary :
    summarize_steps read_payload (rows_of "with the key")
    ≡ (3, record blank { tool = some (some (str "write_file")) }) ∷ []
unfolding summarize_steps payload_of normalize_events normalize_event_type
summary = refl
