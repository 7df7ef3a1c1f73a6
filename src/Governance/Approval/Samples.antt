-- ===== src/Governance/Approval/Samples.antt =====
-- Concrete approvals, and the theorems on them.
use aegis_code.Prelude.{◌≡◌, refl, String, ok, ◌⊎◌}
use aegis_code.Json.{str, obj, field, end}
use aegis_code.Json.Dumps.{quote, dumps}
use aegis_code.Governance.Decision.{Action}
use aegis_code.Governance.Approval.{
  fingerprint, validate_resume, ApprovalRequest, ApprovalStore, empty_store, create, get_request,
  lookup_req, put_req,
}
use aegis_code.Governance.Approval.Binding.{Clash, validate_resume-binds}

-- an approval asked for one action, decided and remembered
abbrev asked : ApprovalRequest × ApprovalStore
asked = create empty_store "a1" "t1" 3 (str "snapshot") "f1" "R" "why" "risk"

asked_found : get_request asked.1 "a1" ≡ ok asked.0
unfolding get_request create lookup_req put_req
asked_found = refl

-- one action with its arguments in two orders
abbrev shown : Action
shown = record {
  tool = "write_file";
  arguments = field "path" (str "a") (field "content" (str "x") end);
}

abbrev resumed : Action
resumed = record {
  tool = "write_file";
  arguments = field "content" (str "x") (field "path" (str "a") end);
}

abbrev identity : String → String
identity s = s

resumed_valid : validate_resume identity (fingerprint identity shown) resumed ≡ ok tt
unfolding validate_resume fingerprint dumps
resumed_valid = refl

validate_resume-binds_example :
    (quote resumed.tool ≡ quote shown.tool)
      × (dumps (obj resumed.arguments) ≡ dumps (obj shown.arguments))
    ⊎ Clash identity resumed shown
validate_resume-binds_example = validate_resume-binds identity shown resumed resumed_valid
