-- ===== src/Demo/Manager/Removes.antt =====
-- Which directories the manager of aegiscode/demo/service.py removes.
use aegis_code.Prelude.{
  ◌≡◌, refl, sym, ap, inl, inr, String, true, not, ◌&&◌, ◌||◌, List, [], ◌∷◌, ◌++◌, Result, ok, err,
  Bool-cases, All,
}
use aegis_code.Prelude.Text.{is_empty, mem_text}
use aegis_code.Persistence.{TaskRow, get_task}
use aegis_code.Service.Tasks.{Tables}
use aegis_code.Demo.Manager.{
  RunMeta, Site, is_done, remove_dir, cleanup_workspace, sweep_with, sweep_one, sweep,
  sweep_orphaned_runs,
}

-- an entry of a dictionary
pub data Recorded (run_id : String) (meta : RunMeta) : List (String × RunMeta) → Type 0 where
  here : (runs : List (String × RunMeta)) → Recorded run_id meta ((run_id, meta) ∷ runs)
  there :
      (run : String × RunMeta) (runs : List (String × RunMeta))
      → Recorded run_id meta runs
      → Recorded run_id meta (run ∷ runs)

-- The workspace of a recorded run whose task has ended.
pub record Ended (s : Site) (workspace : String) : Type 0 where
  pub run_id : String
  pub meta : RunMeta
  pub recorded : Recorded run_id meta s.run_meta
  pub is_its : meta.workspace ≡ workspace
  pub row : TaskRow
  pub found : get_task run_id s.tables.tasks ≡ ok row
  pub is_over : is_done row ≡ true

-- A site that came from another: the directories removed since, the latest first, were those of
-- ended runs, and the runs and the tables are the same.
pub record Progress (s t : Site) : Type 0 where
  pub gone : List String
  pub listed : t.removed ≡ gone ++ s.removed
  pub all_ended : All (Ended s) gone
  pub same_runs : t.run_meta ≡ s.run_meta
  pub same_tables : t.tables ≡ s.tables

abbrev pub unchanged : (s : Site) → Progress s s
unchanged s = record {
  gone = [];
  listed = refl;
  all_ended = tt;
  same_runs = refl;
  same_tables = refl;
}

abbrev IsRun : Site → String × RunMeta → Type 0
IsRun s run = Recorded run.0 run.1 s.run_meta

every_run-there :
    (run : String × RunMeta) (runs some_runs : List (String × RunMeta))
    → All (λ (r : String × RunMeta). Recorded r.0 r.1 runs) some_runs
    → All (λ (r : String × RunMeta). Recorded r.0 r.1 (run ∷ runs)) some_runs
every_run-there run runs [] h = tt
every_run-there run runs (r ∷ rs) h = (there run runs h.0, every_run-there run runs rs h.1)

every_run :
    (runs : List (String × RunMeta)) → All (λ (r : String × RunMeta). Recorded r.0 r.1 runs) runs
every_run [] = tt
every_run (run ∷ runs) = (here runs, every_run-there run runs runs (every_run runs))

module _ (rmtree : String → List String → List String) (s : Site) where
  pub cleanup-Progress :
      (workspace : String) (t : Site)
      → Ended s workspace
      → Progress s t
      → Progress s (cleanup_workspace rmtree workspace t)
  unfolding cleanup_workspace remove_dir
  cleanup-Progress workspace t ended p =
      elim (Bool-cases (not (is_empty workspace) && mem_text workspace t.dirs)) [
        | inl there_is ↦ rw there_is (record {
          gone = workspace ∷ p.gone;
          listed = ap (λ (ws : List String). workspace ∷ ws) p.listed;
          all_ended = (ended, p.all_ended);
          same_runs = p.same_runs;
          same_tables = p.same_tables;
        })
        | inr none_is ↦ rw none_is (record {
          gone = p.gone;
          listed = p.listed;
          all_ended = p.all_ended;
          same_runs = p.same_runs;
          same_tables = p.same_tables;
        })
      ]

  sweep_with-Progress :
      (run_id : String) (meta : RunMeta) (t : Site) (r : Result TaskRow)
      → IsRun s (run_id, meta)
      → get_task run_id s.tables.tasks ≡ r
      → Progress s t
      → Progress s (sweep_with rmtree meta.workspace r t)
  unfolding sweep_with
  sweep_with-Progress run_id meta t (err e) is found p = p
  sweep_with-Progress run_id meta t (ok row) is found p = elim (Bool-cases (is_done row)) [
    | inl over ↦ rw over (
        cleanup-Progress meta.workspace t
          (record {
            run_id = run_id;
            meta = meta;
            recorded = is;
            is_its = refl;
            row = row;
            found = found;
            is_over = over;
          })
          p)
    | inr going ↦ rw going p
  ]

  sweep_one-Progress :
      (run_id : String) (meta : RunMeta) (t : Site)
      → IsRun s (run_id, meta)
      → Progress s t
      → Progress s (sweep_one rmtree run_id meta t)
  unfolding sweep_one
  sweep_one-Progress run_id meta t is p =
      elim (Bool-cases (is_empty meta.workspace || not (mem_text meta.workspace t.dirs))) [
        | inl gone ↦ rw gone p
        | inr there_is ↦ rw there_is (
            sweep_with-Progress run_id meta t (get_task run_id t.tables.tasks) is
              (ap (λ (ts : Tables). get_task run_id ts.tasks) (sym p.same_tables)) p)
      ]

  sweep-Progress :
      (runs : List (String × RunMeta)) (t : Site)
      → All (IsRun s) runs
      → Progress s t
      → Progress s (sweep rmtree runs t)
  unfolding sweep
  sweep-Progress [] t all p = p
  sweep-Progress ((run_id, meta) ∷ runs) t all p =
      sweep-Progress runs (sweep_one rmtree run_id meta t) all.1
        (sweep_one-Progress run_id meta t all.0 p)

  pub swept-Progress : Progress s (sweep_orphaned_runs rmtree s)
  unfolding sweep_orphaned_runs
  swept-Progress = sweep-Progress s.run_meta s (every_run s.run_meta) (unchanged s)
