-- ===== src/Service/Readers.antt =====
-- The readers of `ApplicationService` of aegiscode/service/app_service.py and the listings of
-- aegiscode/persistence/repositories.py, and the flags of cancellation. A row of the log has its place
-- in the table as its identifier, from 1 on.
use aegis_code.Prelude.{
  ℕ, ◌+◌, String, Bool, true, ◌&&◌, List, [], ◌∷◌, none, ltb, ◌==◌, if◌then◌else◌,
}
use aegis_code.Prelude.Text.Lines.{text_leb}
use aegis_code.Persistence.{ApprovalRow}
use aegis_code.Audit.Chain.{Row, verify_chain}

-- SELECT … FROM audit_events WHERE task_id=? AND event_id>? ORDER BY event_id
rows_since : ℕ → String → ℕ → List Row → List (ℕ × Row)
rows_since event_id task_id since [] = []
rows_since event_id task_id since (r ∷ rs) =
    let rest = rows_since (event_id + 1) task_id since rs in
    if r.task_id == task_id && ltb since event_id then (event_id, r) ∷ rest else rest

-- AuditEventRepository.list_since
pub list_since : String → ℕ → List Row → List (ℕ × Row)
unfolding rows_since
list_since task_id since rows = rows_since 1 task_id since rows

-- a row before those that were created later
place : ApprovalRow → List ApprovalRow → List ApprovalRow
unfolding text_leb
place r [] = r ∷ []
place r (s ∷ rs) =
    let rest = place r rs in if text_leb r.created_at s.created_at then r ∷ s ∷ rs else s ∷ rest

-- ApprovalRepository.list_for_task: the rows of a task, ORDER BY created_at
pub list_for_task : String → List ApprovalRow → List ApprovalRow
unfolding place
list_for_task task_id [] = []
list_for_task task_id (r ∷ rs) =
    let rest = list_for_task task_id rs in if r.task_id == task_id then place r rest else rest

-- ApplicationService.cancel: sets the Event of a task that has one
unfoldable pub cancel : String → List (String × Bool) → List (String × Bool)
cancel task_id [] = []
cancel task_id ((k, flag) ∷ flags) =
    let rest = cancel task_id flags in if k == task_id then (k, true) ∷ flags else (k, flag) ∷ rest

pub record Audit : Type 0 where
  pub chain_valid : Bool
  pub events : List (ℕ × Row)

-- ApplicationService.get_audit
pub get_audit : (String → String) → String → List Row → Audit
unfolding verify_chain list_since
get_audit sha256 task_id rows = record {
  chain_valid = (verify_chain sha256 task_id none rows).0;
  events = list_since task_id 0 rows;
}
