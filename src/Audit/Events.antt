-- ===== src/Audit/Events.antt =====
-- aegiscode/audit/events.py, and an event on its way to the log.
use aegis_code.Prelude.{ℕ, String}
use aegis_code.Json.{Fields}

pub data EventType : Type 0 where
  action_proposed governance_decision approval_requested approval_decided : EventType
  tool_executed feedback termination : EventType

-- event_type.value
abbrev pub event_value : EventType → String
event_value action_proposed = "ACTION_PROPOSED"
event_value governance_decision = "GOVERNANCE_DECISION"
event_value approval_requested = "APPROVAL_REQUESTED"
event_value approval_decided = "APPROVAL_DECIDED"
event_value tool_executed = "TOOL_EXECUTED"
event_value feedback = "FEEDBACK"
event_value termination = "TERMINATION"

-- the arguments of a call of `AuditLog.append`
pub record Event : Type 0 where
  pub task_id : String
  pub step_index : ℕ
  pub event_type : EventType
  pub payload : Fields
