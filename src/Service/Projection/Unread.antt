-- ===== src/Service/Projection/Unread.antt =====
-- What the readers of aegiscode/service/app_service.py and aegiscode/persistence/repositories.py
-- find in a log that `AuditLog` of aegiscode/audit/chain.py wrote.
use aegis_code.Prelude.{
  ◌&&◌, map, ℕ, ◌≡◌, refl, String, Bool, false, List, [], ◌∷◌, Option, All, All-append, ◌==◌,
  Bool-cases, inl, inr, arith, ap,
}
use aegis_code.Json.{Fields}
use aegis_code.Audit.Events.{
  EventType, Event, action_proposed, governance_decision, approval_requested, approval_decided,
  tool_executed, feedback, termination,
}
use aegis_code.Audit.Chain.{Row, append, str_event, task_rows}
use aegis_code.Service.Projection.{
  latest_action_step_index, last_step, note_row, note_rows, project_steps, step_row,
}

-- the tables that `append` can write
pub data Written (sha256 redact : String → String) : List Row → Type 0 where
  untouched : Written sha256 redact []
  written :
      (timestamp : String) (e : Event) (rows : List Row)
      → Written sha256 redact rows
      → Written sha256 redact (append sha256 redact timestamp e rows)

-- the row's type is what `append` stores for an event
abbrev Stored : Row → Type 0
Stored r = (t : EventType) × (r.event_type ≡ str_event t)

Written-Stored :
    {sha256 redact : String → String} {rows : List Row}
    → Written sha256 redact rows
    → All Stored rows
unfolding append
Written-Stored untouched = tt
Written-Stored (written timestamp e rows w) =
    All-append Stored rows _ (Written-Stored w) ((e.event_type, refl), tt)

task_rows-All :
    (P : Row → Type 0) (task_id : String) (rows : List Row)
    → All P rows
    → All P (task_rows task_id rows)
unfolding task_rows
task_rows-All P task_id [] a = tt
task_rows-All P task_id (r ∷ rows) (p, a) = elim (Bool-cases (r.task_id == task_id)) [
  | inl e ↦ rw e (p, task_rows-All P task_id rows a)
  | inr e ↦ rw e (task_rows-All P task_id rows a)
]

module _ (loads : String → Option Fields) where
  note_row-Stored :
      (r : Row) (t : EventType) → r.event_type ≡ str_event t → note_row loads r [] ≡ []
  unfolding note_row
  note_row-Stored r action_proposed e = rw e
  note_row-Stored r governance_decision e = rw e
  note_row-Stored r approval_requested e = rw e
  note_row-Stored r approval_decided e = rw e
  note_row-Stored r tool_executed e = rw e
  note_row-Stored r feedback e = rw e
  note_row-Stored r termination e = rw e

  note_rows-Stored : (rows : List Row) → All Stored rows → note_rows loads rows [] ≡ []
  unfolding note_rows
  note_rows-Stored [] a = refl
  note_rows-Stored (r ∷ rows) ((t, e), a) = rw (note_row-Stored r t e) (note_rows-Stored rows a)

not_proposed : (t : EventType) → str_event t == "ACTION_PROPOSED" ≡ false
not_proposed action_proposed = refl
not_proposed governance_decision = refl
not_proposed approval_requested = refl
not_proposed approval_decided = refl
not_proposed tool_executed = refl
not_proposed feedback = refl
not_proposed termination = refl

last_step-Stored :
    (task_id : String) (n : ℕ) (rows : List Row)
    → All Stored rows
    → last_step n task_id "ACTION_PROPOSED" rows ≡ n
unfolding last_step
last_step-Stored task_id n [] a = refl
last_step-Stored task_id n (r ∷ rows) ((t, e), a) =
    rw (e, not_proposed t, and-false (r.task_id == task_id)) (last_step-Stored task_id n rows a)
  where
    and-false : (b : Bool) → (b && false) ≡ false
    and-false b = ground arith

-- The readers look for "ACTION_PROPOSED", "GOVERNANCE_DECISION" and "FEEDBACK", and `append`
-- stores "EventType.ACTION_PROPOSED" and the like: of a table that `append` wrote, whatever was
-- logged, no step is projected, and the latest action's step is 0.
pub project_steps-Written :
    (sha256 redact : String → String) (loads : String → Option Fields) (task_id : String)
    (rows : List Row)
    → Written sha256 redact rows
    → (project_steps loads task_id rows ≡ []) × (latest_action_step_index task_id rows ≡ 0)
unfolding project_steps latest_action_step_index
project_steps-Written sha256 redact loads task_id rows w = (
  ap (map step_row) (
      note_rows-Stored loads (task_rows task_id rows)
        (task_rows-All Stored task_id rows (Written-Stored w))),
  last_step-Stored task_id 0 rows (Written-Stored w),
)
