-- ===== src/Service/Tasks/Ends.antt =====
-- How a task of aegiscode/service/app_service.py begins and ends.
use aegis_code.Prelude.{
  ◌≡◌, ◌⊎◌, inl, inr, refl, ℕ, String, Option, some, Result, ok, err, Error, length, ◌∙◌, eq_refl,
}
use aegis_code.Json.{str}
use aegis_code.Governance.Fence.{components}
use aegis_code.Governance.Fence.Inside.{Begins}
use aegis_code.Governance.Dispatcher.{root_or}
use aegis_code.Loop.Termination.{
  Reason, completed, finish_rejected, max_steps, consecutive_failures, no_progress,
  invalid_action_limit, llm_error, internal_error, cancelled, timeout, reason_text,
}
use aegis_code.Persistence.{TaskRow, insert_task, get_task, set_task}
use aegis_code.Persistence.Updates.{get_task-update_task}
use aegis_code.Service.Projection.{project_steps}
use aegis_code.Service.Workspace.{validate_workspace, validate_workspace-Begins}
use aegis_code.Service.Tasks.{
  Tables, termination_to_state, Run, reason_of, Service, record_end, run_inline, accepted,
  create_task, then_return,
}

-- How a row records the outcome of a run.
unfoldable pub Records : Result Reason → TaskRow → Type 0
Records (ok completed) r = (r.state ≡ "COMPLETED") × (r.termination_reason ≡ some "COMPLETED")
Records (ok cancelled) r = (r.state ≡ "CANCELLED") × (r.termination_reason ≡ some "CANCELLED")
Records (ok finish_rejected) r =
    (r.state ≡ "FAILED") × (r.termination_reason ≡ some "FINISH_REJECTED")
Records (ok max_steps) r = (r.state ≡ "FAILED") × (r.termination_reason ≡ some "MAX_STEPS")
Records (ok consecutive_failures) r =
    (r.state ≡ "FAILED") × (r.termination_reason ≡ some "CONSECUTIVE_FAILURES")
Records (ok no_progress) r = (r.state ≡ "FAILED") × (r.termination_reason ≡ some "NO_PROGRESS")
Records (ok invalid_action_limit) r =
    (r.state ≡ "FAILED") × (r.termination_reason ≡ some "INVALID_ACTION_LIMIT")
Records (ok llm_error) r = (r.state ≡ "FAILED") × (r.termination_reason ≡ some "LLM_ERROR")
Records (ok internal_error) r =
    (r.state ≡ "FAILED") × (r.termination_reason ≡ some "INTERNAL_ERROR")
Records (ok timeout) r = (r.state ≡ "FAILED") × (r.termination_reason ≡ some "TIMEOUT")
Records (err e) r = (r.state ≡ "FAILED") × (r.termination_reason ≡ some "INTERNAL_ERROR")

set_task-Records :
    (now : String) (n : ℕ) (outcome : Result Reason) (r : TaskRow)
    → Records outcome (
        set_task now
          (termination_to_state (reason_of outcome))
          (some (reason_text (reason_of outcome)))
          (some n)
          r)
unfolding Records set_task
set_task-Records now n (ok completed) r = (refl, refl)
set_task-Records now n (ok cancelled) r = (refl, refl)
set_task-Records now n (ok finish_rejected) r = (refl, refl)
set_task-Records now n (ok max_steps) r = (refl, refl)
set_task-Records now n (ok consecutive_failures) r = (refl, refl)
set_task-Records now n (ok no_progress) r = (refl, refl)
set_task-Records now n (ok invalid_action_limit) r = (refl, refl)
set_task-Records now n (ok llm_error) r = (refl, refl)
set_task-Records now n (ok internal_error) r = (refl, refl)
set_task-Records now n (ok timeout) r = (refl, refl)
set_task-Records now n (err e) r = (refl, refl)

set_task-count :
    (now state : String) (reason : Option String) (n : ℕ) (r : TaskRow)
    → (set_task now state reason (some n) r).step_count ≡ n
unfolding set_task
set_task-count now state reason n r = refl

module _ (sv : Service) (now task_id workspace description : String) (t : Tables) where
  abbrev pub base : String
  base = root_or sv.config.workspace.allowed_base sv.config.workspace.root

  -- the tables when the harness starts: the task's row names the workspace
  abbrev pub started : Tables
  started = record t {
    tasks = insert_task now task_id workspace (sv.sha256_16 workspace) description t.tasks;
  }

  -- What becomes of the tables where the workspace is accepted: the harness for this workspace is
  -- not built, or it runs on them and its end is recorded.
  pub Launched : Tables → Type 0
  Launched after =
      ((e : Error) × (sv.harness_factory task_id workspace ≡ err e) × (after ≡ started))
      ⊎ ((run : Run) × (sv.harness_factory task_id workspace ≡ ok run)
          × (after ≡ record_end sv now task_id (run description started)))

  inline-Launched :
      (f : Result Run)
      → sv.harness_factory task_id workspace ≡ f
      → Launched (then_return task_id (run_inline sv now task_id description f started)).1
  unfolding Launched then_return run_inline
  inline-Launched (err e) is = inl (e, is, refl)
  inline-Launched (ok run) is = inr (run, is, refl)

  accepted-inside :
      (r : Result (Unit {0}))
      → validate_workspace sv.files (str workspace) base ≡ r
      → ((accepted sv now task_id workspace description r t).1 ≡ t)
        ⊎ Begins (components (sv.files.realpath base)) (components (sv.files.realpath workspace))
          × Launched (accepted sv now task_id workspace description r t).1
  unfolding accepted
  accepted-inside (err e) v = inl refl
  accepted-inside (ok tt) v =
      inr (validate_workspace-Begins sv.files workspace base v, inline-Launched _ refl)

  -- A task whose creation changes a table has a workspace that lies in the allowed base behind all
  -- links, and it is launched there.
  pub create_task-inside :
      ((create_task sv now task_id workspace description t).1 ≡ t)
      ⊎ Begins (components (sv.files.realpath base)) (components (sv.files.realpath workspace))
        × Launched (create_task sv now task_id workspace description t).1
  unfolding create_task
  create_task-inside = accepted-inside _ refl

  -- a task that ran: its row holds the outcome and how many steps were projected from the log
  pub record Ended (run : Run) (out : Result String × Tables) : Type 0 where
    pub row : TaskRow
    pub found : get_task task_id out.1.tasks ≡ ok row
    pub records : Records (run description started).0 row
    pub counted :
        row.step_count ≡ length (project_steps sv.loads task_id (run description started).1.events)
    pub events_stay : out.1.events ≡ (run description started).1.events
    pub approvals_stay : out.1.approvals ≡ (run description started).1.approvals

  -- All ways in which the creation of a task ends: the workspace is refused and nothing changes, the
  -- harness is not built and the error is raised with the row left behind, or the task ran.
  pub Ends : Result String × Tables → Type 0
  Ends out =
      ((e : Error) × (validate_workspace sv.files (str workspace) base ≡ err e)
        × (out ≡ (err e, t)))
      ⊎ (validate_workspace sv.files (str workspace) base ≡ ok tt)
        × (((e : Error) × (sv.harness_factory task_id workspace ≡ err e) × (out ≡ (err e, started)))
            ⊎ ((run : Run) × (sv.harness_factory task_id workspace ≡ ok run)
                × (out.0 ≡ ok task_id)
                × Ended run out))

  -- a harness leaves the task's row in place
  abbrev pub KeepsRow : Type 0
  KeepsRow =
      (run : Run)
      → sv.harness_factory task_id workspace ≡ ok run
      → (r : TaskRow) × (get_task task_id (run description started).1.tasks ≡ ok r)

  end-Ended :
      (run : Run) (r : TaskRow)
      → get_task task_id (run description started).1.tasks ≡ ok r
      → Ended run (ok task_id, record_end sv now task_id (run description started))
  unfolding record_end
  end-Ended run r found =
      let outcome = (run description started).0 in
      let after = (run description started).1 in
      let n = length (project_steps sv.loads task_id after.events) in
      record {
        row =
            set_task now (termination_to_state (reason_of outcome))
              (some (reason_text (reason_of outcome))) (some n) r;
        found =
            get_task-update_task now task_id _ _ _ task_id after.tasks
            ∙ rw (eq_refl task_id, found) refl;
        records = set_task-Records now n outcome r;
        counted = set_task-count now _ _ n r;
        events_stay = refl;
        approvals_stay = refl;
      }

  inline-Ends :
      KeepsRow
      → (f : Result Run) → sv.harness_factory task_id workspace ≡ f
      → validate_workspace sv.files (str workspace) base ≡ ok tt
      → Ends (then_return task_id (run_inline sv now task_id description f started))
  unfolding Ends then_return run_inline
  inline-Ends keeps (err e) is valid = inr (valid, inl (e, is, refl))
  inline-Ends keeps (ok run) is valid =
      let (r, found) = keeps run is in inr (valid, inr (run, is, refl, end-Ended run r found))

  accepted-Ends :
      KeepsRow
      → (r : Result (Unit {0})) → validate_workspace sv.files (str workspace) base ≡ r
      → Ends (accepted sv now task_id workspace description r t)
  unfolding Ends accepted
  accepted-Ends keeps (err e) v = inl (e, v, refl)
  accepted-Ends keeps (ok tt) v = inline-Ends keeps _ refl v

  -- Where a harness leaves the task's row in place, the creation of a task ends in one of three
  -- ways. The workspace is refused: the error is raised and no table changes. The harness for the
  -- workspace is not built: the error is raised, and the row stays behind as it was inserted. Or it
  -- runs, raising or not, and the task is returned: its row holds COMPLETED or CANCELLED for these
  -- two reasons, else FAILED, with the reason's text, INTERNAL_ERROR if the run raised, and the
  -- number of steps projected; the events and the approvals are as the run left them.
  pub create_task-Ends : KeepsRow → Ends (create_task sv now task_id workspace description t)
  unfolding create_task
  create_task-Ends keeps = accepted-Ends keeps _ refl
