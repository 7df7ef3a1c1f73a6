-- ===== src/Demo/Manager.antt =====
-- `DemoRunManager` of aegiscode/demo/service.py. Its service's `create_task` and what becomes of the
-- files of a fixture are parameters; a directory is there or not, and `rmtree` says which ones are
-- left after a removal.
pub mod Removes
pub mod Calls
mod Samples
use aegis_code.Prelude.{
  ℕ, String, Bool, true, false, not, ◌&&◌, ◌||◌, List, [], ◌∷◌, Option, none, some, Result, ok, err,
  key_error, value_error, ◌>>=◌, ◌==◌, if◌then◌else◌,
}
use aegis_code.Prelude.Text.{◌+s◌, is_empty, mem_text}
use aegis_code.Prelude.Text.Repr.{repr}
use aegis_code.Json.{Fields}
use aegis_code.Llm.{Mock, scripted}
use aegis_code.Audit.Chain.{task_rows}
use aegis_code.Persistence.{TaskRow, get_task}
use aegis_code.Service.Tasks.{Tables}
use aegis_code.Demo.Scenarios.{build_run_outcome}
use aegis_code.Demo.Registry.{Scenario, Assessment, evaluate, get_scenario}
use aegis_code.Demo.Events.{normalize_events}
use aegis_code.Demo.Events.Summary.{Summary, summarize_steps}

-- _TERMINAL_STATES
abbrev pub terminal_states : List String
terminal_states = "COMPLETED" ∷ "CANCELLED" ∷ "FAILED" ∷ []

-- a value of `_run_meta`
pub record RunMeta : Type 0 where
  pub scenario_id : String
  pub workspace : String

-- the manager's dictionaries, the directories under its base, those that were removed, and the
-- tables of its service
pub record Site : Type 0 where
  pub ws_to_scenario : List (String × String)
  pub run_meta : List (String × RunMeta)
  pub ws_llms : List (String × Mock)
  pub dirs : List String
  pub removed : List String
  pub tables : Tables

module _ {V : Type 0} where
  -- d[k] = v
  put_key : String → V → List (String × V) → List (String × V)
  put_key k v [] = (k, v) ∷ []
  put_key k v ((j, u) ∷ d) = if j == k then (j, v) ∷ d else (j, u) ∷ put_key k v d

  -- d.pop(k, None)
  pop_key : String → List (String × V) → List (String × V)
  pop_key k [] = []
  pop_key k ((j, u) ∷ d) = let rest = pop_key k d in if j == k then rest else (j, u) ∷ rest

  -- d.get(k)
  get_key : String → List (String × V) → Option V
  get_key k [] = none
  get_key k ((j, v) ∷ d) = if j == k then some v else get_key k d

-- the state of a task is one of those that last
pub is_done : TaskRow → Bool
is_done row = mem_text row.state terminal_states

pub record RunView : Type 0 where
  pub scenario_id : String
  pub state : String
  pub acceptance : List Assessment
  pub steps : List (ℕ × Summary)
  pub done : Bool

module _ (rmtree : String → List String → List String) where
  -- the `if` of _cleanup_workspace
  remove_dir : String → Site → Site
  remove_dir workspace s =
      if not (is_empty workspace) && mem_text workspace s.dirs
      then record s { dirs = rmtree workspace s.dirs; removed = workspace ∷ s.removed }
      else s

  -- _cleanup_workspace
  pub cleanup_workspace : String → Site → Site
  unfolding remove_dir pop_key
  cleanup_workspace workspace s =
      let r = remove_dir workspace s in
      record r {
        ws_to_scenario = pop_key workspace s.ws_to_scenario;
        ws_llms = pop_key workspace s.ws_llms;
      }

  -- behind the look at the task's state
  sweep_with : String → Result TaskRow → Site → Site
  unfolding cleanup_workspace is_done
  sweep_with workspace (err e) s = s
  sweep_with workspace (ok row) s = if is_done row then cleanup_workspace workspace s else s

  -- the body of the `for`
  sweep_one : String → RunMeta → Site → Site
  unfolding sweep_with
  sweep_one run_id meta s =
      if is_empty meta.workspace || not (mem_text meta.workspace s.dirs)
      then s
      else sweep_with meta.workspace (get_task run_id s.tables.tasks) s

  sweep : List (String × RunMeta) → Site → Site
  unfolding sweep_one
  sweep [] s = s
  sweep ((run_id, meta) ∷ runs) s = sweep runs (sweep_one run_id meta s)

  -- _sweep_orphaned_runs
  pub sweep_orphaned_runs : Site → Site
  unfolding sweep
  sweep_orphaned_runs s = sweep s.run_meta s

  -- the end of get_run
  settle : RunMeta → Bool → Site → Site
  unfolding cleanup_workspace
  settle meta done s = if done then cleanup_workspace meta.workspace s else s

  module _ (loads : String → Option Fields) where
    pub view_of : String → RunMeta → Scenario → TaskRow → Site → RunView
    view_of run_id meta scenario row s =
        let events = normalize_events (task_rows run_id s.tables.events) in
        record {
          scenario_id = meta.scenario_id;
          state = row.state;
          acceptance =
              evaluate scenario.success_conditions
                (build_run_outcome loads meta.scenario_id row.state events);
          steps = summarize_steps loads events;
          done = is_done row;
        }

    get_run_row : String → RunMeta → Scenario → Result TaskRow → Site → Result RunView × Site
    unfolding view_of settle
    get_run_row run_id meta scenario (err e) s = (err e, s)
    get_run_row run_id meta scenario (ok row) s =
        (ok (view_of run_id meta scenario row s), settle meta (is_done row) s)

    get_run_scenario : String → RunMeta → Result Scenario → Site → Result RunView × Site
    unfolding get_run_row
    get_run_scenario run_id meta (err e) s = (err e, s)
    get_run_scenario run_id meta (ok scenario) s =
        get_run_row run_id meta scenario (get_task run_id s.tables.tasks) s

    get_run_meta : String → Option RunMeta → Site → Result RunView × Site
    unfolding get_run_scenario
    get_run_meta run_id none s = (err (key_error run_id), s)
    get_run_meta run_id (some meta) s =
        get_run_scenario run_id meta (get_scenario meta.scenario_id) s

    -- get_run
    pub get_run : String → Site → Result RunView × Site
    unfolding get_run_meta get_key
    get_run run_id s = get_run_meta run_id (get_key run_id s.run_meta) s

-- _materialize_fixture, with what writing the files gives
pub materialize_fixture : Result (Unit {0}) → Option String → Result (Unit {0})
unfolding repr
materialize_fixture writes none = ok tt
materialize_fixture writes (some fixture) =
    if fixture == "calc"
    then writes
    else err (value_error ("unknown demo fixture: " +s repr fixture))

-- a call of the service's create_task for a workspace and a description
abbrev pub CreateTask : Type 0
CreateTask = String → String → Tables → Result String × Tables

-- the entry of `_run_meta`, if there is a task
record_run : String → String → Result String × Tables → Site → Result String × Site
unfolding put_key
record_run scenario_id workspace (err e, tables) s = (err e, record s { tables = tables })
record_run scenario_id workspace (ok run_id, tables) s = (
  ok run_id,
  record s {
    tables = tables;
    run_meta =
        put_key run_id (record { scenario_id = scenario_id; workspace = workspace }) s.run_meta;
  },
)

-- behind the fixture: the workspace is registered and the task created
launch : CreateTask → String → String → Scenario → Result (Unit {0}) → Site → Result String × Site
unfolding put_key record_run
launch create scenario_id workspace scenario (err e) s = (err e, s)
launch create scenario_id workspace scenario (ok _) s =
    record_run scenario_id workspace (create workspace scenario_id s.tables) (record s {
      ws_to_scenario = put_key workspace scenario_id s.ws_to_scenario;
      ws_llms = put_key workspace (scripted scenario.mock_script) s.ws_llms;
    })

module _ (rmtree : String → List String → List String) (create : CreateTask)
    (writes : Result (Unit {0})) where
  start_scenario : String → String → Result Scenario → Site → Result String × Site
  unfolding launch materialize_fixture sweep_orphaned_runs
  start_scenario scenario_id workspace (err e) s = (err e, s)
  start_scenario scenario_id workspace (ok scenario) s =
      let swept = sweep_orphaned_runs rmtree s in
      launch create scenario_id workspace scenario (materialize_fixture writes scenario.fixture)
        (record swept { dirs = workspace ∷ swept.dirs })

  -- start_run; the workspace is what `mkdtemp` makes under the allowed base
  pub start_run : String → String → Site → Result String × Site
  unfolding start_scenario
  start_run scenario_id workspace s =
      start_scenario scenario_id workspace (get_scenario scenario_id) s
