-- ===== src/Service/Assembly/Registered.antt =====
-- Which tools `_build_registry` of aegiscode/service/assembly.py registers.
use aegis_code.Prelude.{
  ◌≡◌, refl, String, false, List, [], ◌∷◌, ◌++◌, none, if◌then◌else◌, arith, Bool-cases, inl, inr,
  eq_iff, take,
}
use mathlib.Core.List.{append-nil}
use aegis_code.Prelude.Text.{mem_text}
use aegis_code.Tools.{Tool, Registry, get_tool, register, names}
use aegis_code.Tools.Os.{Os}
use aegis_code.Tools.Registry.{register-new}
use aegis_code.Tools.Files.{write_file_tool, read_file_tool, list_files_tool, search_text_tool}
use aegis_code.Tools.Commands.{run_command_tool, run_tests_tool, finish_tool}
use aegis_code.Config.{AegisConfig}
use aegis_code.Service.Assembly.{add_tool, build_registry}

-- The tools that there are, in the order of their registration.
abbrev pub all_tools : {W : Type 0} → Os W → AegisConfig → Registry W
all_tools os config =
    ("write_file", write_file_tool os)
    ∷ ("read_file", read_file_tool os)
    ∷ ("list_files", list_files_tool os)
    ∷ ("search_text", search_text_tool os)
    ∷ ("finish", finish_tool)
    ∷ (
      "run_command",
      run_command_tool os config.limits.command_timeout_sec config.limits.output_max_bytes,
    )
    ∷ (
      "run_tests",
      run_tests_tool os config.feedback.test_command config.limits.command_timeout_sec
          config.limits.output_max_bytes,
    )
    ∷ []

module _ {W : Type 0} where
  -- the enabled ones of some tools, in their order
  pub enabled_of : List String → Registry W → Registry W
  enabled_of enabled [] = []
  enabled_of enabled ((k, t) ∷ ts) =
      let rest = enabled_of enabled ts in if mem_text k enabled then (k, t) ∷ rest else rest

  -- what an enabled tool of a list is
  pub get_tool-enabled_of :
      (enabled : List String) (k : String) (ts : Registry W)
      → get_tool k (enabled_of enabled ts) ≡ (if mem_text k enabled then get_tool k ts else none)
  unfolding enabled_of get_tool
  get_tool-enabled_of enabled k [] = ground arith
  get_tool-enabled_of enabled k ((j, t) ∷ ts) =
      ground (arith, get_tool-enabled_of enabled k ts, eq_iff j k)

  enabled_of-append :
      (enabled : List String) (xs ys : Registry W)
      → enabled_of enabled (xs ++ ys) ≡ enabled_of enabled xs ++ enabled_of enabled ys
  unfolding enabled_of
  enabled_of-append enabled [] ys = refl
  enabled_of-append enabled ((k, t) ∷ xs) ys = ground (arith, enabled_of-append enabled xs ys)

  names-enabled_of :
      (enabled : List String) (k : String) (ts : Registry W)
      → mem_text k (names ts) ≡ false
      → mem_text k (names (enabled_of enabled ts)) ≡ false
  unfolding enabled_of names mem_text
  names-enabled_of enabled k [] h = refl
  names-enabled_of enabled k ((j, t) ∷ ts) h = ground (arith, names-enabled_of enabled k ts)

  add_tool-enabled_of :
      (enabled : List String) (t : Tool W) (ts : Registry W)
      → mem_text t.name (names ts) ≡ false
      → add_tool enabled t (enabled_of enabled ts) ≡ enabled_of enabled (ts ++ (t.name, t) ∷ [])
  unfolding add_tool enabled_of
  add_tool-enabled_of enabled t ts h = elim (Bool-cases (mem_text t.name enabled)) [
    | inl on ↦
        rw (enabled_of-append, on)
          (register-new t (enabled_of enabled ts) (names-enabled_of enabled t.name ts h))
    | inr off ↦ rw (enabled_of-append, off, append-nil)
  ]

  add_tool-first :
      (enabled : List String) (t : Tool W)
      → add_tool enabled t [] ≡ enabled_of enabled ((t.name, t) ∷ [])
  unfolding add_tool enabled_of register
  add_tool-first enabled t = refl

module _ {W : Type 0} (os : Os W) (config : AegisConfig) where
  abbrev enabled : List String
  enabled = config.tools.enabled

  fresh_names :
      (mem_text "read_file" (names (take 1 (all_tools os config))) ≡ false)
      × (mem_text "list_files" (names (take 2 (all_tools os config))) ≡ false)
      × (mem_text "search_text" (names (take 3 (all_tools os config))) ≡ false)
      × (mem_text "finish" (names (take 4 (all_tools os config))) ≡ false)
      × (mem_text "run_command" (names (take 5 (all_tools os config))) ≡ false)
      × (mem_text "run_tests" (names (take 6 (all_tools os config))) ≡ false)
  unfolding mem_text names
  fresh_names = (refl, refl, refl, refl, refl, refl)

  registered : build_registry os config ≡ enabled_of enabled (all_tools os config)
  unfolding build_registry
  registered = rw (
    add_tool-first enabled (write_file_tool os),
    add_tool-enabled_of enabled (read_file_tool os) (take 1 (all_tools os config)) fresh_names.0,
    add_tool-enabled_of enabled (list_files_tool os) (take 2 (all_tools os config)) fresh_names.1,
    add_tool-enabled_of enabled (search_text_tool os) (take 3 (all_tools os config)) fresh_names.2,
    add_tool-enabled_of enabled finish_tool (take 4 (all_tools os config)) fresh_names.3,
    add_tool-enabled_of enabled
        (run_command_tool os config.limits.command_timeout_sec config.limits.output_max_bytes)
        (take 5 (all_tools os config)) fresh_names.4,
    add_tool-enabled_of enabled
        (run_tests_tool os config.feedback.test_command config.limits.command_timeout_sec
          config.limits.output_max_bytes)
        (take 6 (all_tools os config)) fresh_names.5,
  )

  -- The tools registered are the enabled ones of those that there are, in a fixed order: a name
  -- answers with its tool where it is enabled, and with nothing where it is not.
  pub build_registry-enabled :
      (build_registry os config ≡ enabled_of config.tools.enabled (all_tools os config))
      × ((k : String)
          → get_tool k (build_registry os config)
            ≡ (if mem_text k config.tools.enabled then get_tool k (all_tools os config) else none))
  build_registry-enabled = (
    registered,
    λ k. rw registered (get_tool-enabled_of config.tools.enabled k (all_tools os config)),
  )
