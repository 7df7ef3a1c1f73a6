-- ===== src/Demo/Manager/Calls.antt =====
-- The calls of the manager of aegiscode/demo/service.py.
use aegis_code.Prelude.{
  ◌≡◌, refl, ◌∙◌, inl, inr, String, List, [], ◌∷◌, ◌++◌, Option, none, some, Result, ok, err, ◌==◌,
  arith, eq_iff, Bool-cases, All,
}
use aegis_code.Json.{Fields}
use aegis_code.Persistence.{TaskRow, get_task}
use aegis_code.Service.Tasks.{Tables}
use aegis_code.Demo.Registry.{Scenario, get_scenario}
use aegis_code.Demo.Manager.{
  RunMeta, Site, is_done, settle, get_run_row, get_run_scenario, get_run_meta, get_run, get_key,
  CreateTask, record_run, launch, start_scenario, start_run,
}
use aegis_code.Demo.Manager.Removes.{
  Recorded, here, there, Ended, Progress, unchanged, cleanup-Progress, swept-Progress,
}

-- What a call removes: workspaces of ended runs, whatever it returns.
pub record Removes (s t : Site) : Type 0 where
  pub gone : List String
  pub listed : t.removed ≡ gone ++ s.removed
  pub all_ended : All (Ended s) gone

progress-Removes : (s t : Site) → Progress s t → Removes s t
progress-Removes s t p = record { gone = p.gone; listed = p.listed; all_ended = p.all_ended }

get_key-Recorded :
    (run_id : String) (meta : RunMeta) (runs : List (String × RunMeta))
    → get_key run_id runs ≡ some meta
    → Recorded run_id meta runs
unfolding get_key
get_key-Recorded run_id meta [] h = absurd (ground arith)
get_key-Recorded run_id meta ((j, m) ∷ runs) h = elim (Bool-cases (j == run_id)) [
  | inl is ↦
      let same : m ≡ meta = some_meta (rw is at h) in rw ((eq_iff j run_id).0 is, same) (here runs)
  | inr other ↦ there (j, m) runs (get_key-Recorded run_id meta runs (rw other at h))
]
  where
    some_meta : {a b : RunMeta} → some a ≡ some b → a ≡ b
    some_meta e = cc

record_run-removed :
    (scenario_id workspace : String) (out : Result String × Tables) (s : Site)
    → (record_run scenario_id workspace out s).1.removed ≡ s.removed
unfolding record_run
record_run-removed scenario_id workspace (err e, tables) s = refl
record_run-removed scenario_id workspace (ok run_id, tables) s = refl

launch-removed :
    (create : CreateTask) (scenario_id workspace : String) (scenario : Scenario)
    (r : Result (Unit {0})) (s : Site)
    → (launch create scenario_id workspace scenario r s).1.removed ≡ s.removed
unfolding launch
launch-removed create scenario_id workspace scenario (err e) s = refl
launch-removed create scenario_id workspace scenario (ok _) s =
    record_run-removed scenario_id workspace (create workspace scenario_id s.tables) _

module _ (rmtree : String → List String → List String) where
  start_scenario-Removes :
      (create : CreateTask) (writes : Result (Unit {0})) (scenario_id workspace : String)
      (r : Result Scenario) (s : Site)
      → Removes s (start_scenario rmtree create writes scenario_id workspace r s).1
  unfolding start_scenario
  start_scenario-Removes create writes scenario_id workspace (err e) s =
      progress-Removes s s (unchanged s)
  start_scenario-Removes create writes scenario_id workspace (ok scenario) s =
      let p = swept-Progress rmtree s in
      record {
        gone = p.gone;
        listed = launch-removed create scenario_id workspace scenario _ _ ∙ p.listed;
        all_ended = p.all_ended;
      }

  settle-Removes :
      (run_id : String) (meta : RunMeta) (row : TaskRow) (s : Site)
      → Recorded run_id meta s.run_meta
      → get_task run_id s.tables.tasks ≡ ok row
      → Removes s (settle rmtree meta (is_done row) s)
  unfolding settle
  settle-Removes run_id meta row s recorded found = elim (Bool-cases (is_done row)) [
    | inl over ↦ rw over (
        progress-Removes s _ (
          cleanup-Progress rmtree s meta.workspace s
            (record {
              run_id = run_id;
              meta = meta;
              recorded = recorded;
              is_its = refl;
              row = row;
              found = found;
              is_over = over;
            })
            (unchanged s)))
    | inr going ↦ rw going (progress-Removes s s (unchanged s))
  ]

  module _ (loads : String → Option Fields) where
    get_run_row-Removes :
        (run_id : String) (meta : RunMeta) (scenario : Scenario) (r : Result TaskRow) (s : Site)
        → Recorded run_id meta s.run_meta
        → get_task run_id s.tables.tasks ≡ r
        → Removes s (get_run_row rmtree loads run_id meta scenario r s).1
    unfolding get_run_row
    get_run_row-Removes run_id meta scenario (err e) s is found = progress-Removes s s (unchanged s)
    get_run_row-Removes run_id meta scenario (ok row) s is found =
        settle-Removes run_id meta row s is found

    get_run_scenario-Removes :
        (run_id : String) (meta : RunMeta) (r : Result Scenario) (s : Site)
        → Recorded run_id meta s.run_meta
        → Removes s (get_run_scenario rmtree loads run_id meta r s).1
    unfolding get_run_scenario
    get_run_scenario-Removes run_id meta (err e) s is = progress-Removes s s (unchanged s)
    get_run_scenario-Removes run_id meta (ok scenario) s is =
        get_run_row-Removes run_id meta scenario _ s is refl

    get_run_meta-Removes :
        (run_id : String) (o : Option RunMeta) (s : Site)
        → get_key run_id s.run_meta ≡ o
        → Removes s (get_run_meta rmtree loads run_id o s).1
    unfolding get_run_meta
    get_run_meta-Removes run_id none s is = progress-Removes s s (unchanged s)
    get_run_meta-Removes run_id (some meta) s is =
        get_run_scenario-Removes run_id meta (get_scenario meta.scenario_id) s
          (get_key-Recorded run_id meta s.run_meta is)

    -- Whatever is asked of the manager, the directories that go are workspaces of runs that it has
    -- recorded itself and whose tasks are in a terminal state when the call is made.
    pub calls-Removes :
        (create : CreateTask) (writes : Result (Unit {0})) (scenario_id workspace run_id : String)
        (s : Site)
        → Removes s (start_run rmtree create writes scenario_id workspace s).1
          × Removes s (get_run rmtree loads run_id s).1
    unfolding start_run get_run
    calls-Removes create writes scenario_id workspace run_id s = (
      start_scenario-Removes create writes scenario_id workspace (get_scenario scenario_id) s,
      get_run_meta-Removes run_id (get_key run_id s.run_meta) s refl,
    )
