-- ===== src/Service/Workspace.antt =====
-- `_validate_workspace` of aegiscode/service/app_service.py; the file system is a parameter.
use aegis_code.Prelude.{
  ◌≡◌, refl, String, Result, ok, err, value_error, ◌==◌, if◌then◌else◌, ap, ◌∙◌, arith, eq_iff,
}
use aegis_code.Prelude.Text.{◌+s◌, is_empty}
use aegis_code.Prelude.Text.Repr.{repr}
use aegis_code.Json.{Json, str}
use aegis_code.Governance.Fence.{Files, components, commonpath}
use aegis_code.Governance.Fence.Inside.{Begins, commonpath-Begins}

outside : String → Result (Unit {0})
outside workspace =
    err (value_error ("workspace " +s repr workspace +s " is outside the allowed base"))

-- the common path, or the error that is raised in its stead
contained : String → String → Result String → Result (Unit {0})
contained workspace base_real (err e) = outside workspace
contained workspace base_real (ok common) = if common == base_real then ok tt else outside workspace

unfoldable pub validate_workspace : Files → Json → String → Result (Unit {0})
unfolding contained outside repr
validate_workspace files (str workspace) allowed_base =
    let base_real = files.realpath allowed_base in
    if is_empty workspace
    then err (value_error "workspace must be a non-empty string")
    else contained workspace base_real (commonpath (files.realpath workspace) base_real)
validate_workspace files workspace allowed_base =
    err (value_error "workspace must be a non-empty string")

contained-Begins :
    (workspace base_real real : String) (r : Result String)
    → commonpath real base_real ≡ r
    → contained workspace base_real r ≡ ok tt
    → Begins (components base_real) (components real)
unfolding contained outside
contained-Begins workspace base_real real (err e) c h = ground arith
contained-Begins workspace base_real real (ok common) c h =
    commonpath-Begins real base_real (c ∙ ap ok (ground (arith, eq_iff common base_real)))

-- A workspace that is accepted lies, behind all links, in the allowed base, component by component.
pub validate_workspace-Begins :
    (files : Files) (workspace allowed_base : String)
    → validate_workspace files (str workspace) allowed_base ≡ ok tt
    → Begins (components (files.realpath allowed_base)) (components (files.realpath workspace))
unfolding validate_workspace
validate_workspace-Begins files workspace allowed_base h =
    contained-Begins workspace (files.realpath allowed_base) (files.realpath workspace) _ refl
      (ground arith)
