-- ===== src/Demo/Samples.antt =====
-- The demo's manager and harnesses over a table of files, and rows of its log.
use aegis_code.Prelude.{
  ◌≡◌, ◌≢◌, refl, ℕ, suc, ◌+◌, ◌<◌, String, false, List, [], ◌∷◌, Option, none, some, Result, ok,
  err, value_error, arith,
}
use aegis_code.Prelude.Text.Laws.{text_ne}
use aegis_code.Json.{Fields, field, str, end, put}
use aegis_code.Tools.Table.{Table, table_os, insert, lookup}
use aegis_code.Governance.Decision.{Action, Verdict, require_approval}
use aegis_code.Governance.Approval.{fingerprint}
use aegis_code.Json.Dumps.{dumps}
use aegis_code.Audit.Events.{Event, event_value, tool_executed}
use aegis_code.Audit.Chain.{str_event, task_rows}
use aegis_code.Llm.{scripted}
use aegis_code.Loop.Harness.{Harness, Loop}
use aegis_code.Loop.Termination.{Reason}
use aegis_code.Loop.Turn.{run, initial, dispatched}
use aegis_code.Loop.Turn.Denied.{world_of}
use aegis_code.Loop.Turn.Silent.{last_event}
use aegis_code.Demo.Scenarios.{build_run_outcome}
use aegis_code.Demo.Events.{normalize_event_type, normalize_event_type-str_event, normalize_events}
use aegis_code.Demo.Events.Counted.{logged, executions, build_run_outcome-executions}
use aegis_code.Demo.Wiring.{Stage, Resolver, mutated, fallback_harness, wrap_supersede_resolver}
use aegis_code.Demo.Wiring.Silent.{fallback_harness-Silent}
use aegis_code.Demo.Wiring.Superseded.{dispatched-Superseded}

normalize_event_type-str_event_example :
    (normalize_event_type (str_event tool_executed) ≡ event_value tool_executed)
    × (normalize_event_type (event_value tool_executed) ≡ event_value tool_executed)
normalize_event_type-str_event_example = normalize_event_type-str_event tool_executed

abbrev executed : String → Event
executed task_id = record {
  task_id = task_id;
  step_index = 0;
  event_type = tool_executed;
  payload = field "tool" (str "read_file") end;
}

abbrev events : List (String × Event)
events = ("1", executed "t1") ∷ ("2", executed "t2") ∷ []

abbrev unchanged : String → String
unchanged s = s

abbrev unread : String → Option Fields
unread text = none

build_run_outcome-executions_example :
    (build_run_outcome unread "s" "COMPLETED" (
      normalize_events
        (task_rows "t1" (logged unchanged unchanged events [])))).tool_execution_count
    ≡ executions "t1" events
build_run_outcome-executions_example =
    build_run_outcome-executions unchanged unchanged "t1" unread "s" "COMPLETED" events

count_of : Result (List ℕ) → ℕ
count_of (ok (n ∷ ns)) = n
count_of _ = 0

-- The table of files, with the number of calls in a file of its own.
abbrev stage : Stage Table
stage = record {
  os = table_os;
  files = λ w. record { realpath = λ p. p; exists = λ p. false; islink = λ p. false };
  parse_action = λ text. err (value_error text);
  sha256 = unchanged;
  elapsed = λ w. (0, w);
  executable = "python";
  mock_of = λ w. scripted [];
  set_mock = λ m w. w;
  calls_of = λ w. count_of (lookup "calls" w);
  set_calls = λ n w. insert "calls" (n ∷ []) w;
}

abbrev fallback : Harness Table
fallback = fallback_harness stage "/d" "t1" "/d/w1" none

fallback_harness-Silent_example :
    (reason : Reason) × (s : Loop Table) × (run fallback (suc 3) "task" [] ≡ some (reason, s))
    × (s.log ≡ last_event fallback reason ∷ [])
fallback_harness-Silent_example = fallback_harness-Silent stage "/d" "t1" "/d/w1" none 3 "task" []

abbrev nobody : Resolver Table
nobody action v w = (ok (action, false), w)

abbrev wrapped : Harness Table
wrapped = record fallback { approval_resolver = some (wrap_supersede_resolver stage nobody) }

abbrev writing : Action
writing = record {
  tool = "write_file";
  arguments = field "path" (str "a.txt") (field "content" (str "x") end);
}

abbrev asking : Verdict
asking = record { decision = require_approval; rule_id = "TIER_WRITE"; reason = "" }

-- one call was made before
abbrev once : Table
once = insert "calls" (1 ∷ []) []

called : 0 < count_of (lookup "calls" once)
unfolding count_of lookup insert
called = omega arith

changed : fingerprint wrapped.sha256 (mutated writing) ≢ fingerprint wrapped.sha256 writing
unfolding fallback_harness fingerprint dumps put
changed = text_ne _ _ refl

abbrev started : Loop Table
started = initial wrapped once

dispatched-Superseded_example :
    world_of (dispatched wrapped writing started (ok (asking, none), once))
    ≡ (stage).set_calls (count_of (lookup "calls" once) + 1) once
dispatched-Superseded_example =
    dispatched-Superseded stage wrapped nobody writing asking none started once refl refl called
      changed
