-- ===== src/Demo/Events/Counted.antt =====
-- The outcome that aegiscode/demo/scenarios.py makes of the log of a run.
use aegis_code.Prelude.{
  ◌≡◌, refl, ap, ◌∙◌, inl, inr, ℕ, ◌+◌, String, Bool, true, false, ◌&&◌, List, [], ◌∷◌, ◌++◌,
  Option, map, arith, ◌==◌, Bool-cases, if◌then◌else◌,
}
use aegis_code.Json.{Fields}
use aegis_code.Audit.Events.{
  Event, EventType, event_value, action_proposed, governance_decision, approval_requested,
  approval_decided, tool_executed, feedback, termination,
}
use aegis_code.Audit.Chain.{Row, str_event, append, task_rows}
use aegis_code.Audit.Chain.Valid.{task_rows-append}
use aegis_code.Demo.Scenarios.{RunOutcome, note_event, note_events, build_run_outcome}
use aegis_code.Demo.Events.{
  normalize_event_type, normalized, normalize_events, normalize_event_type-str_event,
}

module _ (sha256 redact : String → String) where
  -- the log after some events, each at its time
  unfoldable pub logged : List (String × Event) → List Row → List Row
  logged [] rows = rows
  logged ((timestamp, e) ∷ events) rows = logged events (append sha256 redact timestamp e rows)

abbrev is_tool_executed : EventType → Bool
is_tool_executed tool_executed = true
is_tool_executed _ = false

-- how many tools a task has executed, by the events
unfoldable pub executions : String → List (String × Event) → ℕ
executions task_id [] = 0
executions task_id ((_, e) ∷ events) =
    (if e.task_id == task_id && is_tool_executed e.event_type then 1 else 0)
    + executions task_id events

-- how many rows read as the execution of a tool
executed_rows : List Row → ℕ
executed_rows [] = 0
executed_rows (r ∷ rs) =
    (if normalize_event_type r.event_type == "TOOL_EXECUTED" then 1 else 0) + executed_rows rs

executed_rows-append :
    (xs ys : List Row) → executed_rows (xs ++ ys) ≡ executed_rows xs + executed_rows ys
unfolding executed_rows
executed_rows-append [] ys = omega arith
executed_rows-append (x ∷ xs) ys = omega (arith, executed_rows-append xs ys)

note_event-count :
    (loads : String → Option Fields) (o : RunOutcome) (r : Row)
    → (note_event loads o r).tool_execution_count
      ≡ (if r.event_type == "TOOL_EXECUTED" then 1 else 0) + o.tool_execution_count
unfolding note_event
note_event-count loads o r = ground arith

note_events-count :
    (loads : String → Option Fields) (o : RunOutcome) (rows : List Row)
    → (note_events loads o (map normalized rows)).tool_execution_count
      ≡ o.tool_execution_count + executed_rows rows
unfolding note_events executed_rows
note_events-count loads o [] = omega arith
note_events-count loads o (r ∷ rows) =
    note_events-count loads (note_event loads o (normalized r)) rows
    ∙ omega (arith, note_event-count loads o (normalized r))

executed_event :
    (t : EventType) → (normalize_event_type (str_event t) == "TOOL_EXECUTED") ≡ is_tool_executed t
executed_event t = rw (normalize_event_type-str_event t).0 (by_value t)
  where
    by_value : (u : EventType) → (event_value u == "TOOL_EXECUTED") ≡ is_tool_executed u
    by_value action_proposed = refl
    by_value governance_decision = refl
    by_value approval_requested = refl
    by_value approval_decided = refl
    by_value tool_executed = refl
    by_value feedback = refl
    by_value termination = refl

row-executed :
    (task_id : String) (r : Row)
    → executed_rows (task_rows task_id (r ∷ [])) ≡ (
        if r.task_id == task_id && normalize_event_type r.event_type == "TOOL_EXECUTED"
        then 1
        else 0)
unfolding task_rows executed_rows
row-executed task_id r = elim (Bool-cases (r.task_id == task_id)) [
  | inl mine ↦ rw mine (omega arith)
  | inr other ↦ rw other refl
]

last-executed :
    (task_id : String) (rows : List Row) (r : Row)
    → executed_rows (task_rows task_id (rows ++ r ∷ []))
      ≡ executed_rows (task_rows task_id rows)
        + (if r.task_id == task_id && normalize_event_type r.event_type == "TOOL_EXECUTED"
            then 1
            else 0)
last-executed task_id rows r =
    rw (task_rows-append (λ s. s) task_id rows (r ∷ []), executed_rows-append, row-executed) refl

module _ (sha256 redact : String → String) (task_id : String) where
  append-executed :
      (timestamp : String) (e : Event) (rows : List Row)
      → executed_rows (task_rows task_id (append sha256 redact timestamp e rows))
        ≡ executed_rows (task_rows task_id rows)
          + (if e.task_id == task_id && is_tool_executed e.event_type then 1 else 0)
  unfolding append
  append-executed timestamp e rows =
      last-executed task_id rows _
      ∙ ap
          (λ (b : Bool).
            executed_rows (task_rows task_id rows) + (if e.task_id == task_id && b then 1 else 0))
          (executed_event e.event_type)

  logged-executed :
      (events : List (String × Event)) (rows : List Row)
      → executed_rows (task_rows task_id (logged sha256 redact events rows))
        ≡ executed_rows (task_rows task_id rows) + executions task_id events
  unfolding logged executions
  logged-executed [] rows = omega arith
  logged-executed ((timestamp, e) ∷ events) rows = omega (
    arith,
    logged-executed events (append sha256 redact timestamp e rows),
    append-executed timestamp e rows,
  )

  -- Whatever was logged, by whatever tasks: the outcome that the demo makes of a task's rows counts
  -- exactly the executions of tools among the task's events.
  pub build_run_outcome-executions :
      (loads : String → Option Fields) (scenario_id state : String) (events : List (String × Event))
      → (build_run_outcome loads scenario_id state (
          normalize_events
            (task_rows task_id (logged sha256 redact events [])))).tool_execution_count
        ≡ executions task_id events
  unfolding build_run_outcome normalize_events task_rows executed_rows
  build_run_outcome-executions loads scenario_id state events =
      note_events-count loads _ (task_rows task_id (logged sha256 redact events []))
      ∙ omega (arith, logged-executed events [])
