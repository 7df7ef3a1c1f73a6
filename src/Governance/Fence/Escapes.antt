-- ===== src/Governance/Fence/Escapes.antt =====
-- The reasons of aegiscode/governance/path_fence.py and the file that a path stands for.
use aegis_code.Prelude.{
  ◌≡◌, ◌≢◌, refl, ap, ◌∙◌, String, true, false, ◌||◌, List, Result, ok, err, arith, ◌==◌,
  Bool-cases, inl, inr,
}
use aegis_code.Prelude.Text.{is_empty, join_path, basename, dirname}
use aegis_code.Json.{str}
use aegis_code.Governance.Fence.{
  Files, PathVerdict, components, commonpath, check_real, check_new, check_text, check_path,
}
use aegis_code.Governance.Fence.Inside.{Begins, commonpath-Begins}
use aegis_code.Governance.Fence.Allows.{placed, resolved, same_root}

-- The file that a path stands for lies under the workspace's root.
abbrev pub InWorkspace : Files → String → String → Type 0
InWorkspace files path workspace_root =
    Begins (components (files.realpath workspace_root))
      (components (files.realpath (resolved files path workspace_root)))

-- The two reasons that name an escape.
abbrev pub NoEscape : String → Type 0
NoEscape reason =
    (reason ≢ "path escapes workspace (traversal/symlink)")
    × (reason ≢ "parent dir outside workspace")

module _ (files : Files) (root path : String) (patterns : List String) (real : String) where
  check_real-same :
      (v : PathVerdict) (common : String)
      → commonpath (files.realpath real) root ≡ ok common
      → check_real files root path patterns real ≡ ok v
      → NoEscape v.reason
      → common == root ≡ true
  unfolding check_real
  check_real-same v common read h ne = elim (Bool-cases (common == root)) [
    | inl e ↦ e
    | inr e ↦ absurd (ne.0 (ground arith))
  ]

  check_real-with_inside :
      (v : PathVerdict) (r : Result String)
      → commonpath (files.realpath real) root ≡ r
      → check_real files root path patterns real ≡ ok v
      → NoEscape v.reason
      → Begins (components root) (components (files.realpath real))
  check_real-with_inside v (err e) read h ne = unfold check_real in (ground arith)
  check_real-with_inside v (ok common) read h ne =
      let e : common ≡ root = same_root common (check_real-same v common read h ne) in
      commonpath-Begins (files.realpath real) root (read ∙ ap (λ c. ok c) e)

  check_real-inside :
      (v : PathVerdict)
      → check_real files root path patterns real ≡ ok v
      → NoEscape v.reason
      → Begins (components root) (components (files.realpath real))
  check_real-inside v h ne = check_real-with_inside v _ refl h ne

module _ (files : Files) (root path : String) (patterns : List String) (joined : String) where
  abbrev new_real : String
  new_real = join_path (files.realpath (dirname joined)) (basename joined)

  -- a new file's parent passes before the file is looked at
  check_new-with :
      (v : PathVerdict) (r : Result String)
      → commonpath (files.realpath (dirname joined)) root ≡ r
      → check_new files root path patterns joined ≡ ok v
      → NoEscape v.reason
      → check_real files root path patterns new_real ≡ ok v
  unfolding check_new
  check_new-with v (err e) read h ne = ground arith
  check_new-with v (ok common) read h ne = elim (Bool-cases (common == root)) [
    | inl e ↦ ground arith
    | inr e ↦ absurd (ne.1 (ground arith))
  ]

module _ (files : Files) (path workspace_root : String) (patterns : List String)
    (v : PathVerdict) where
  abbrev joined_here : String
  joined_here = placed files path workspace_root

  check_text-real-NoEscape :
      check_text files path workspace_root patterns ≡ ok v
      → NoEscape v.reason
      → check_real files
          (files.realpath workspace_root)
          path
          patterns
          (resolved files path workspace_root)
        ≡ ok v
  unfolding check_text
  check_text-real-NoEscape h ne =
      elim (Bool-cases (files.islink joined_here || files.exists joined_here)) [
        | inl e ↦ ground arith
        | inr e ↦ rw e (
            check_new-with files (files.realpath workspace_root) path patterns joined_here v _ refl
              (ground arith) ne)
      ]

  -- Unless the reason of its verdict names an escape, the file that a non-empty path stands for is
  -- in the workspace, whether the verdict allows it or not.
  pub check_path-inside :
      is_empty path ≡ false
      → check_path files (str path) workspace_root patterns ≡ ok v
      → NoEscape v.reason
      → InWorkspace files path workspace_root
  check_path-inside e h ne =
      check_real-inside files (files.realpath workspace_root) path patterns
        (resolved files path workspace_root) v
        (check_text-real-NoEscape (unfold check_path in (ground arith)) ne) ne
