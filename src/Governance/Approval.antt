-- ===== src/Governance/Approval.antt =====
-- aegiscode/governance/approval.py. `hashlib.sha256(...).hexdigest()` is a parameter, a function on
-- texts; identifiers from `uuid.uuid4()` are arguments.
pub mod Binding
pub mod Store
mod Samples
use aegis_code.Prelude.{
  ℕ, String, Bool, true, false, not, ◌&&◌, ◌||◌, List, [], ◌∷◌, Option, none, some, Result, ok, err,
  key_error, superseded_error, ◌==◌, if◌then◌else◌,
}
use aegis_code.Json.{Json, str, obj, Fields, end, field}
use aegis_code.Json.Dumps.{dumps}
use aegis_code.Governance.Decision.{Action}

pub data ApprovalState : Type 0 where
  pending approved rejected expired superseded : ApprovalState

-- {"tool": action.tool, "arguments": action.arguments}
abbrev pub snapshot : Action → Json
snapshot a = obj (field "tool" (str a.tool) (field "arguments" (obj a.arguments) end))

unfoldable pub fingerprint : (String → String) → Action → String
fingerprint sha256 a = sha256 (dumps (snapshot a))

unfoldable pub validate_resume : (String → String) → String → Action → Result (Unit {0})
validate_resume sha256 approved_fp current =
    if fingerprint sha256 current == approved_fp
    then ok tt
    else err (superseded_error "action changed since approval")

pub record ApprovalRequest : Type 0 where
  pub approval_id : String
  pub task_id : String
  pub step_index : ℕ
  pub action_snapshot : Json
  pub action_fingerprint : String
  pub rule_id : String
  pub reason : String
  pub risk_explanation : String
  pub state : ApprovalState

-- `_reqs` and `_remembered`
pub record ApprovalStore : Type 0 where
  pub reqs : List (String × ApprovalRequest)
  pub remembered : List (String × String)

abbrev pub empty_store : ApprovalStore
empty_store = record { reqs = []; remembered = [] }

lookup_req : String → List (String × ApprovalRequest) → Option ApprovalRequest
lookup_req k [] = none
lookup_req k ((j, r) ∷ rs) = if j == k then some r else lookup_req k rs

put_req :
    String → ApprovalRequest → List (String × ApprovalRequest) → List (String × ApprovalRequest)
put_req k r [] = (k, r) ∷ []
put_req k r ((j, s) ∷ rs) = if j == k then (j, r) ∷ rs else (j, s) ∷ put_req k r rs

-- the new request and the store that holds it
pub create :
    ApprovalStore
    → String
    → String
    → ℕ
    → Json
    → String
    → String
    → String
    → String
    → ApprovalRequest × ApprovalStore
create s approval_id task_id step_index action_snapshot fp rule_id reason risk =
    let req : ApprovalRequest = record {
      approval_id = approval_id;
      task_id = task_id;
      step_index = step_index;
      action_snapshot = action_snapshot;
      action_fingerprint = fp;
      rule_id = rule_id;
      reason = reason;
      risk_explanation = risk;
      state = pending;
    } in
    (req, record s { reqs = put_req approval_id req s.reqs })

found : Option ApprovalRequest → String → Result ApprovalRequest
found none approval_id = err (key_error approval_id)
found (some r) approval_id = ok r

pub get_request : ApprovalStore → String → Result ApprovalRequest
unfolding found
get_request s approval_id = found (lookup_req approval_id s.reqs) approval_id

decided :
    ApprovalStore
    → String
    → ApprovalState
    → Option ApprovalRequest
    → Result ApprovalState × ApprovalStore
decided s approval_id to none = (err (key_error approval_id), s)
decided s approval_id to (some r) =
    (ok to, record s { reqs = put_req approval_id (record r { state = to }) s.reqs })

-- `decide` writes to the request that the store shares with its callers
pub decide : ApprovalStore → String → Bool → Result ApprovalState × ApprovalStore
unfolding decided
decide s approval_id is_approved =
    decided s approval_id (if is_approved then approved else rejected)
      (lookup_req approval_id s.reqs)

has_pair : String → String → List (String × String) → Bool
has_pair a b [] = false
has_pair a b ((c, d) ∷ ps) = (c == a && d == b) || has_pair a b ps

pub check_remembered : ApprovalStore → String → String → Bool
unfolding has_pair
check_remembered s task_id fp = has_pair task_id fp s.remembered

-- a set takes a pair once
pub remember : ApprovalStore → String → String → ApprovalStore
unfolding has_pair
remember s task_id fp =
    if has_pair task_id fp s.remembered
    then s
    else record s { remembered = (task_id, fp) ∷ s.remembered }
