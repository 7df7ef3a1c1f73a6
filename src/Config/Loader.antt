-- ===== src/Config/Loader.antt =====
-- aegiscode/config/loader.py: the environment's overrides on a raw configuration. A raw section is
-- a dict of its own; YAML and the schema's validation are parameters of the loading functions.
pub mod Overrides
mod Samples
use aegis_code.Prelude.{
  String, List, [], ◌∷◌, Option, none, some, Result, ok, err, type_error, ◌>>=◌, ◌==◌,
  if◌then◌else◌,
}
use aegis_code.Json.{Json, str, obj, Fields, end, get, put, type_name}
use aegis_code.Prelude.Text.{◌+s◌}
use aegis_code.Config.{AegisConfig}

-- _ENV_MAP
abbrev pub env_map : List (String × String × String)
env_map =
    ("AEGIS_LLM_PROVIDER", "llm", "provider")
    ∷ ("AEGIS_LLM_MODEL", "llm", "model")
    ∷ ("AEGIS_WORKSPACE_ROOT", "workspace", "root")
    ∷ ("AEGIS_WORKSPACE_ALLOWED_BASE", "workspace", "allowed_base")
    ∷ []

pub lookup_env : String → List (String × String) → Option String
lookup_env k [] = none
lookup_env k ((j, v) ∷ env) = if j == k then some v else lookup_env k env

-- raw.setdefault(section, {})[field] = value; a section that is no dict takes no item
set_in : Option Json → String → String → Result Json
set_in none f v = ok (obj (put f (str v) end))
set_in (some (obj fs)) f v = ok (obj (put f (str v) fs))
set_in (some w) f v =
    err (type_error ("'" +s type_name w +s "' object does not support item assignment"))

override : String → String → Option String → Fields → Result Fields
unfolding set_in
override section f none raw = ok raw
override section f (some v) raw =
    set_in (get section raw) f v >>= λ inner. ok (put section inner raw)

apply_map : List (String × String × String) → List (String × String) → Fields → Result Fields
unfolding override
apply_map [] env raw = ok raw
apply_map ((key, section, f) ∷ rest) env raw =
    override section f (lookup_env key env) raw >>= λ raw'. apply_map rest env raw'

-- _apply_env_overrides
pub apply_env_overrides : Fields → List (String × String) → Result Fields
unfolding apply_map lookup_env
apply_env_overrides raw env = apply_map env_map env raw

-- `build` is AegisConfig(**raw) with its validation
module _ (build : Fields → Result AegisConfig) where
  -- what yaml.safe_load gives for the file: a mapping, or nothing
  pub load_config : Result (Option Fields) → List (String × String) → Result AegisConfig
  load_config (err e) env = err e
  load_config (ok none) env = apply_env_overrides end env >>= build
  load_config (ok (some raw)) env = apply_env_overrides raw env >>= build

  pub load_defaults : List (String × String) → Result AegisConfig
  load_defaults env = apply_env_overrides end env >>= build
