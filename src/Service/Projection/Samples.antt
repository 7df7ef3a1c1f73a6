-- ===== src/Service/Projection/Samples.antt =====
-- A log of one proposed action, and the theorem on its readers at it.
use aegis_code.Prelude.{◌≡◌, String, List, [], Option, none}
use aegis_code.Json.{str, Fields, field, end}
use aegis_code.Audit.Events.{Event, action_proposed}
use aegis_code.Audit.Chain.{Row, append}
use aegis_code.Service.Projection.{latest_action_step_index, project_steps}
use aegis_code.Service.Projection.Unread.{Written, untouched, written, project_steps-Written}

abbrev unchanged : String → String
unchanged s = s

abbrev proposed : Event
proposed = record {
  task_id = "t1";
  step_index = 4;
  event_type = action_proposed;
  payload = field "tool" (str "finish") end;
}

abbrev unreadable : String → Option Fields
unreadable s = none

abbrev one_row : List Row
one_row = append unchanged unchanged "now" proposed []

one_row-Written : Written unchanged unchanged one_row
one_row-Written = written "now" proposed [] untouched

project_steps-Written_example :
    (project_steps unreadable "t1" one_row ≡ []) × (latest_action_step_index "t1" one_row ≡ 0)
project_steps-Written_example =
    project_steps-Written unchanged unchanged unreadable "t1" one_row one_row-Written
