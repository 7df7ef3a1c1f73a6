-- ===== src/Governance/Fence/Samples.antt =====
-- Concrete paths of a workspace "/w", and the theorems on the path fences at them.
use aegis_code.Prelude.{
  ◌≡◌, ◌≢◌, refl, String, Bool, true, false, List, [], ◌∷◌, some, none, ok, ap, arith, All, eq_iff,
  ◌==◌,
}
use aegis_code.Prelude.Text.{is_empty, mem_text, split_on, join_with, join_path, basename, dirname}
use aegis_code.Json.{str}
use aegis_code.Config.{default_governance}
use aegis_code.Governance.Fence
use aegis_code.Governance.Fence.{
  Files, PathVerdict, check_path, components, common_prefix, commonpath,
}
use aegis_code.Governance.Fence.Inside.{Begins, commonpath-Begins}
use aegis_code.Governance.Fence.Allows.{Fenced, check_path-Fenced}

-- a file system with one file and no links
abbrev one_file : Files
one_file = record { realpath = λ p. p; exists = λ p. p == "/w/src/a.py"; islink = λ p. false }

abbrev allowed : PathVerdict
allowed = record { allowed = true; reason = "ok" }

one_file_allowed :
    check_path one_file (str "src/a.py") "/w" default_governance.sensitive_file_patterns
    ≡ ok allowed
unfolding check_path aegis_code.Prelude.Text.is_abs join_path commonpath Fence.matches_sensitive
    aegis_code.Glob.fnmatch
one_file_allowed = refl

check_path-Fenced_example :
    Fenced one_file (str "src/a.py") "/w" default_governance.sensitive_file_patterns
check_path-Fenced_example =
    check_path-Fenced one_file (str "src/a.py") "/w" default_governance.sensitive_file_patterns
      allowed one_file_allowed refl

commonpath_src : commonpath "/w/src" "/w" ≡ ok "/w"
unfolding commonpath components aegis_code.Prelude.Text.is_abs
commonpath_src = refl

commonpath-Begins_example : Begins (components "/w") (components "/w/src")
commonpath-Begins_example = commonpath-Begins "/w/src" "/w" commonpath_src
