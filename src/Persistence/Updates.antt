-- ===== src/Persistence/Updates.antt =====
-- What a lookup in aegiscode/persistence/repositories.py finds after an update.
use aegis_code.Prelude.{
  ◌≡◌, refl, String, List, [], ◌∷◌, Option, none, some, Result, ok, err, ◌==◌, eq_iff, arith,
  if◌then◌else◌, ℕ,
}
use aegis_code.Persistence.{
  TaskRow, ApprovalRow, get_task, set_task, update_task, get_approval, set_approval,
  update_approval,
}

-- a change of the row that is found
abbrev pub changed {ℓ} : {A : Type ℓ} → (A → A) → Result A → Result A
changed f (ok a) = ok (f a)
changed f (err e) = err e

-- A decision on an approval is what the next lookup of it finds, and no other lookup changes.
pub get_approval-update_approval :
    (now approval_id state decided_by k : String) (rows : List ApprovalRow)
    → get_approval k (update_approval now approval_id state decided_by rows) ≡ (
        if approval_id == k
        then changed (set_approval now state decided_by) (get_approval k rows)
        else get_approval k rows)
unfolding get_approval update_approval set_approval
get_approval-update_approval now approval_id state decided_by k [] = ground arith
get_approval-update_approval now approval_id state decided_by k (r ∷ rows) = ground (
  arith,
  get_approval-update_approval now approval_id state decided_by k rows,
  eq_iff r.approval_id approval_id,
  eq_iff r.approval_id k,
  eq_iff approval_id k,
)

set_task_key :
    (now state : String) (reason : Option String) (count : Option ℕ) (r : TaskRow)
    → (set_task now state reason count r).task_id ≡ r.task_id
unfolding set_task
set_task_key now state reason none r = refl
set_task_key now state reason (some n) r = refl

-- The end of a task is what the next lookup of it finds, and no other lookup changes.
pub get_task-update_task :
    (now task_id state : String) (reason : Option String) (count : Option ℕ) (k : String)
    (rows : List TaskRow)
    → get_task k (update_task now task_id state reason count rows) ≡ (
        if task_id == k
        then changed (set_task now state reason count) (get_task k rows)
        else get_task k rows)
unfolding get_task update_task
get_task-update_task now task_id state reason count k [] = ground arith
get_task-update_task now task_id state reason count k (r ∷ rows) = ground (
  arith,
  get_task-update_task now task_id state reason count k rows,
  set_task_key now state reason count r,
  eq_iff r.task_id task_id,
  eq_iff r.task_id k,
  eq_iff task_id k,
)
