-- ===== src/Demo/Events.antt =====
-- The rows of the log as aegiscode/demo/service.py reads them.
pub mod Counted
pub mod Summary
use aegis_code.Prelude.{◌≡◌, refl, String, List, [], ◌∷◌, Option, none, some, map}
use aegis_code.Governance.Rules.{strip_prefix}
use aegis_code.Audit.Events.{
  EventType, event_value, action_proposed, governance_decision, approval_requested,
  approval_decided, tool_executed, feedback, termination,
}
use aegis_code.Audit.Chain.{Row, str_event}

abbrev or_whole : String → Option String → String
or_whole text none = text
or_whole text (some rest) = rest

-- _normalize_event_type
pub normalize_event_type : String → String
unfolding strip_prefix
normalize_event_type text = or_whole text (strip_prefix text "EventType.")

abbrev pub normalized : Row → Row
normalized r = record r { event_type = normalize_event_type r.event_type }

-- _normalize_events, on rows that are mappings
pub normalize_events : List Row → List Row
normalize_events = map normalized

-- The text that the log stores for an event's type is read back as the type's value, and a value is
-- left as it is.
pub normalize_event_type-str_event :
    (t : EventType)
    → (normalize_event_type (str_event t) ≡ event_value t)
      × (normalize_event_type (event_value t) ≡ event_value t)
unfolding normalize_event_type
normalize_event_type-str_event action_proposed = (refl, refl)
normalize_event_type-str_event governance_decision = (refl, refl)
normalize_event_type-str_event approval_requested = (refl, refl)
normalize_event_type-str_event approval_decided = (refl, refl)
normalize_event_type-str_event tool_executed = (refl, refl)
normalize_event_type-str_event feedback = (refl, refl)
normalize_event_type-str_event termination = (refl, refl)
