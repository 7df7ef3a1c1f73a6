-- ===== src/Tools/Registry.antt =====
-- The registry of aegiscode/tools/registry.py as a dictionary.
use aegis_code.Prelude.{
  String, ◌≡◌, refl, [], ◌∷◌, ◌++◌, some, arith, ◌==◌, eq_iff, if◌then◌else◌, false, inl, inr,
  Bool-cases,
}
use aegis_code.Prelude.Text.{mem_text}
use aegis_code.Tools.{Tool, Registry, get_tool, put_tool, register, names}

module _ {W : Type 0} where
  get_tool-put_tool :
      (k j : String) (t : Tool W) (ts : Registry W)
      → get_tool j (put_tool k t ts) ≡ (if k == j then some t else get_tool j ts)
  unfolding get_tool put_tool
  get_tool-put_tool k j t [] = refl
  get_tool-put_tool k j t ((i, u) ∷ ts) =
      ground (arith, eq_iff i k, eq_iff i j, eq_iff k j, get_tool-put_tool k j t ts)

  names-put_tool :
      (k : String) (t : Tool W) (ts : Registry W)
      → names (put_tool k t ts) ≡ (if mem_text k (names ts) then names ts else names ts ++ k ∷ [])
  unfolding names put_tool mem_text
  names-put_tool k t [] = refl
  names-put_tool k t ((i, u) ∷ ts) = ground (arith, names-put_tool k t ts)

  -- Registering a tool makes its name answer with it and leaves every other name as it was; a new
  -- name goes to the end of the order, a known one keeps its place.
  pub get_tool-register :
      (t : Tool W) (ts : Registry W) (j : String)
      → (get_tool j (register t ts) ≡ (if t.name == j then some t else get_tool j ts))
        × (names (register t ts)
            ≡ (if mem_text t.name (names ts) then names ts else names ts ++ t.name ∷ []))
  unfolding register
  get_tool-register t ts j = (get_tool-put_tool t.name j t ts, names-put_tool t.name t ts)

  put_tool-new :
      (k : String) (t : Tool W) (ts : Registry W)
      → mem_text k (names ts) ≡ false
      → put_tool k t ts ≡ ts ++ (k, t) ∷ []
  unfolding put_tool names mem_text
  put_tool-new k t [] h = refl
  put_tool-new k t ((j, u) ∷ ts) h = elim (Bool-cases (j == k)) [
    | inl same ↦ absurd (ground arith)
    | inr differs ↦ rw (differs, put_tool-new k t ts (ground arith))
  ]

  -- a tool with a new name goes to the end
  pub register-new :
      (t : Tool W) (ts : Registry W)
      → mem_text t.name (names ts) ≡ false
      → register t ts ≡ ts ++ (t.name, t) ∷ []
  unfolding register
  register-new t ts h = put_tool-new t.name t ts h
