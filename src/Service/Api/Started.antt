-- ===== src/Service/Api/Started.antt =====
-- What a POST of aegiscode/service/api.py starts.
use aegis_code.Prelude.{
  ◌≡◌, refl, ap, subst, ◌∙◌, ◌⊎◌, inl, inr, String, Bool, true, false, ◌&&◌, List, Option, none,
  some, Result, ok, err, ◌==◌, Bool-cases, arith, eq_iff,
}
use aegis_code.Governance.Dispatcher.{root_or}
use aegis_code.Governance.Fence.{components}
use aegis_code.Governance.Fence.Inside.{Begins}
use aegis_code.Service.Tasks.{Tables, Service}
use aegis_code.Service.Tasks.Ends.{Launched, create_task-inside}
use aegis_code.Service.Api.{
  Host, validate_demo_request, answer, submit, submit_copy, post_checked, post_tasks,
}

module _ (sv : Service) (demo : Bool) (copy : List String → Result String × List String)
    (rmtree : String → List String → List String) (host : Host) (workspace : String) where
  abbrev allowed : String
  allowed = root_or sv.config.workspace.allowed_base sv.config.workspace.root

  -- Which workspace a POST may use: in demo mode a fresh copy, and only where "demo" was asked for.
  pub Origin : String → Type 0
  Origin used =
      ((demo ≡ false) × (used ≡ workspace))
      ⊎ ((demo ≡ true) × (workspace ≡ "demo") × ((copy host.copies).0 ≡ ok used))

  -- What is so of a POST that changed a table: the task's row and its harness have the workspace
  -- that it may use.
  pub record Used (now task_id description : String) (after : Host) : Type 0 where
    pub used : String
    pub origin : Origin used
    pub inside :
        Begins (components (sv.files.realpath allowed)) (components (sv.files.realpath used))
    pub launched : Launched sv now task_id used description host.tables after.tables

  abbrev pub IsGuarded : String → String → String → Host → Type 0
  IsGuarded now task_id description after =
      (after.tables ≡ host.tables) ⊎ Used now task_id description after

  answer-tables :
      (task_id : String) (demo_tmp : Option String) (v : Result (Unit {0}))
      (out : Result String × Tables) (h : Host)
      → (answer sv demo copy rmtree task_id demo_tmp v out h).1.tables ≡ out.1
  unfolding answer
  answer-tables task_id demo_tmp (err e) (r, t) h = refl
  answer-tables task_id demo_tmp (ok _) (ok id, t) h = refl
  answer-tables task_id demo_tmp (ok _) (err e, t) h = refl

  submit-IsGuarded :
      (now task_id : String) (demo_tmp : Option String) (used description : String) (h : Host)
      → h.tables ≡ host.tables
      → Origin used
      → IsGuarded now task_id description
          (submit sv demo copy rmtree now task_id demo_tmp used description h).1
  unfolding submit
  submit-IsGuarded now task_id demo_tmp used description h same origin =
      let out = answer-tables task_id demo_tmp _ _ h in
      elim (create_task-inside sv now task_id used description h.tables) [
        | inl kept ↦ inl (out ∙ kept ∙ same)
        | inr (inside, launched) ↦ inr (record {
          used = used;
          origin = origin;
          inside = inside;
          launched = subst (λ u. u) (cc) launched;
        })
      ]

  copied-IsGuarded :
      (now task_id description : String) (c : Result String × List String)
      → copy host.copies ≡ c
      → demo ≡ true
      → workspace ≡ "demo"
      → IsGuarded now task_id description
          (submit_copy sv demo copy rmtree now task_id description c host).1
  unfolding submit_copy Origin
  copied-IsGuarded now task_id description (err e, copies) is on asked = inl refl
  copied-IsGuarded now task_id description (ok tmp, copies) is on asked =
      submit-IsGuarded now task_id (some tmp) tmp description (record host { copies = copies }) refl
        (inr (on, asked, ap (λ (c : Result String × List String). c.0) is))

  checked-IsGuarded :
      (now task_id description : String) (v : Result (Unit {0}))
      → validate_demo_request demo workspace ≡ v
      → IsGuarded now task_id description
          (post_checked sv demo copy rmtree now task_id workspace description v host).1
  unfolding post_checked validate_demo_request Origin
  checked-IsGuarded now task_id description (err e) is = inl refl
  checked-IsGuarded now task_id description (ok tt) is =
      elim (Bool-cases (demo && workspace == "demo")) [
        | inl both ↦ rw both (
            copied-IsGuarded now task_id description (copy host.copies) refl (ground arith)
              ((eq_iff workspace "demo").0 (ground arith)))
        | inr other ↦
            let off : demo ≡ false = ground arith in
            rw other
              (submit-IsGuarded now task_id none workspace description host refl (inl (off, refl)))
      ]

  -- A POST changes no table, or it starts a task in a workspace that lies in the allowed base behind
  -- all links: the one that was asked for, or in demo mode a fresh copy, and then "demo" was asked
  -- for. The row inserted and the harness built are for this workspace; if the harness is built, it
  -- runs on the tables with that row, and its end is recorded.
  pub post_tasks-IsGuarded :
      (now task_id description : String)
      → IsGuarded now task_id description
          (post_tasks sv demo copy rmtree now task_id workspace description host).1
  unfolding post_tasks
  post_tasks-IsGuarded now task_id description =
      checked-IsGuarded now task_id description (validate_demo_request demo workspace) refl
