-- ===== src/Service/Assembly/Idle.antt =====
-- Which tools of `_build_registry` of aegiscode/service/assembly.py leave the world as it is.
use aegis_code.Prelude.{
  ◌≡◌, refl, sym, subst, ◌∙◌, ◌⊎◌, inl, inr, String, true, false, List, [], ◌∷◌, none, some, drop,
  arith, Bool-cases, eq_iff, ◌==◌, if◌then◌else◌,
}
use aegis_code.Prelude.Text.{mem_text}
use aegis_code.Json.{Fields}
use aegis_code.Config.{AegisConfig}
use aegis_code.Tools.{Tool, Registry, Ctx, get_tool}
use aegis_code.Tools.Os.{Os}
use aegis_code.Tools.Files.{read_file, list_files, search_text, write_file_tool}
use aegis_code.Tools.Commands.{finish}
use aegis_code.Service.Assembly.{build_registry}
use aegis_code.Service.Assembly.Registered.{all_tools, build_registry-enabled}

pub some_inj : {A : Type 0} {a b : A} → some a ≡ some b → a ≡ b
some_inj e = cc

module _ {W : Type 0} where
  -- a tool that leaves the world as it is
  unfoldable pub IsIdle : Tool W → Type 0
  IsIdle t = (arguments : Fields) (ctx : Ctx) (w : W) → (t.run arguments ctx w).1 ≡ w

  -- the tool of a name is the first of the list, or one of the others
  first_or_later :
      (k j : String) (t x : Tool W) (ts : Registry W)
      → get_tool k ((j, x) ∷ ts) ≡ some t
      → ((k ≡ j) × (t ≡ x)) ⊎ (get_tool k ts ≡ some t)
  unfolding get_tool
  first_or_later k j t x ts h = elim (Bool-cases (j == k)) [
    | inl is ↦ inl (sym ((eq_iff j k).0 is), sym (some_inj (rw is at h)))
    | inr other ↦ inr (rw other at h)
  ]

  -- every tool of a list is idle, or is not enabled
  IdleOrOff : List String → Registry W → Type 0
  IdleOrOff enabled [] = Unit {0}
  IdleOrOff enabled ((j, x) ∷ ts) = (IsIdle x ⊎ (mem_text j enabled ≡ false)) × IdleOrOff enabled ts

  enabled_tool-IsIdle :
      (enabled : List String) (k : String) (t : Tool W) (ts : Registry W)
      → IdleOrOff enabled ts
      → mem_text k enabled ≡ true
      → get_tool k ts ≡ some t
      → IsIdle t
  unfolding IdleOrOff get_tool
  enabled_tool-IsIdle enabled k t [] idle on h = absurd (ground arith)
  enabled_tool-IsIdle enabled k t ((j, x) ∷ ts) (inl idle, rest) on h =
      elim (first_or_later k j t x ts h) [
        | inl first ↦ subst IsIdle (sym first.1) idle
        | inr later ↦ enabled_tool-IsIdle enabled k t ts rest on later
      ]
  enabled_tool-IsIdle enabled k t ((j, x) ∷ ts) (inr disabled, rest) on h =
      elim (first_or_later k j t x ts h) [
        | inl first ↦ absurd (ground (arith, disabled, rw first.0 at on))
        | inr later ↦ enabled_tool-IsIdle enabled k t ts rest on later
      ]

module _ {W : Type 0} (os : Os W) (config : AegisConfig)
    (no_command : mem_text "run_command" config.tools.enabled ≡ false)
    (no_tests : mem_text "run_tests" config.tools.enabled ≡ false) where
  others_idle : IdleOrOff config.tools.enabled (drop 1 (all_tools os config))
  unfolding IdleOrOff IsIdle read_file list_files search_text finish
  others_idle = (
    inl (λ arguments ctx w. refl),
    (
      inl (λ arguments ctx w. refl),
      (
        inl (λ arguments ctx w. refl),
        (inl (λ arguments ctx w. refl), (inr no_command, (inr no_tests, tt))),
      ),
    ),
  )

  -- a tool that is registered writes files, or leaves the world as it is
  pub registered-IsIdle :
      (k : String) (t : Tool W)
      → get_tool k (build_registry os config) ≡ some t
      → ((k ≡ "write_file") × (t ≡ write_file_tool os)) ⊎ IsIdle t
  registered-IsIdle k t h = elim (Bool-cases (mem_text k config.tools.enabled)) [
    | inl on ↦
        elim (first_or_later k "write_file" t (write_file_tool os) (drop 1 (all_tools os config))
          (rw on at known)) [
            | inl first ↦ inl first
            | inr later ↦ inr (enabled_tool-IsIdle config.tools.enabled k t _ others_idle on later)
          ]
    | inr disabled ↦ absurd (ground (arith, rw disabled at known))
  ]
    where
      known :
          (if mem_text k config.tools.enabled then get_tool k (all_tools os config) else none)
          ≡ some t
      known = sym ((build_registry-enabled os config).1 k) ∙ h
