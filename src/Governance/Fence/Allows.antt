-- ===== src/Governance/Fence/Allows.antt =====
-- The paths that aegiscode/governance/path_fence.py lets through.
use aegis_code.Prelude.{
  ◌≡◌, refl, ap, ◌∙◌, String, Bool, true, false, not, ◌&&◌, ◌||◌, List, [], ◌∷◌, Result, ok, err,
  arith, ◌==◌, eq_iff, if◌then◌else◌,
}
use aegis_code.Prelude.Text.{is_abs, join_path, basename, dirname}
use aegis_code.Json.{Json, str}
use aegis_code.Governance.Fence.{
  Files, PathVerdict, components, commonpath, matches_sensitive, blocked_by, check_real, check_new,
  check_text, check_path,
}
use aegis_code.Governance.Fence.Inside.{Begins, commonpath-Begins}

-- The path under the workspace's root.
abbrev pub placed : Files → String → String → String
placed files path workspace_root =
    if is_abs path then path else join_path (files.realpath workspace_root) path

-- The file that a path stands for: behind the links if it is there, and else in its real parent.
abbrev pub resolved : Files → String → String → String
resolved files path workspace_root =
    let joined = placed files path workspace_root in
    if files.islink joined || files.exists joined
    then files.realpath joined
    else join_path (files.realpath (dirname joined)) (basename joined)

pub record Fenced (files : Files) (value : Json) (workspace_root : String) (patterns : List String)
    : Type 0 where
  pub path : String
  pub is_text : value ≡ str path
  pub inside :
      Begins
        (components (files.realpath workspace_root))
        (components (files.realpath (resolved files path workspace_root)))
  pub plain_name : matches_sensitive path patterns ≡ false
  pub plain_target : matches_sensitive (resolved files path workspace_root) patterns ≡ false

-- a hit is always named
blocked_by-hit :
    (path real : String) (patterns : List String)
    → (matches_sensitive path patterns || matches_sensitive real patterns) ≡ true
    → (blocked_by path real patterns).allowed ≡ false
unfolding blocked_by matches_sensitive
blocked_by-hit path real [] h = cc
blocked_by-hit path real (p ∷ ps) h = ground (arith, blocked_by-hit path real ps)

-- the test that `check_path` makes of a common path
pub same_root : {root : String} (common : String) → common == root ≡ true → common ≡ root
same_root {root} common h = (eq_iff common root).0 h

module _ (files : Files) (root path : String) (patterns : List String) (real : String) where
  record RealFenced : Type 0 where
    inside : Begins (components root) (components (files.realpath real))
    plain_name : matches_sensitive path patterns ≡ false
    plain_target : matches_sensitive real patterns ≡ false

  -- the tests of `check_real` in one
  abbrev tests_pass : String → Bool
  tests_pass common =
      common == root && not (matches_sensitive path patterns || matches_sensitive real patterns)

  check_real-tests :
      (v : PathVerdict) (common : String)
      → commonpath (files.realpath real) root ≡ ok common
      → check_real files root path patterns real ≡ ok v
      → v.allowed ≡ true
      → tests_pass common ≡ true
  unfolding check_real
  check_real-tests v common read h allowed = ground (arith, blocked_by-hit path real patterns)

  tests_pass-RealFenced :
      (common : String)
      → commonpath (files.realpath real) root ≡ ok common
      → tests_pass common ≡ true
      → RealFenced
  tests_pass-RealFenced common read h =
      let e : common ≡ root = same_root common (ground arith) in
      record {
        inside = commonpath-Begins (files.realpath real) root (read ∙ ap (λ c. ok c) e);
        plain_name = ground arith;
        plain_target = ground arith;
      }

  check_real-with :
      (v : PathVerdict) (r : Result String)
      → commonpath (files.realpath real) root ≡ r
      → check_real files root path patterns real ≡ ok v
      → v.allowed ≡ true
      → RealFenced
  check_real-with v (err e) read h allowed = unfold check_real in (ground arith)
  check_real-with v (ok common) read h allowed =
      tests_pass-RealFenced common read (check_real-tests v common read h allowed)

  check_real-RealFenced :
      (v : PathVerdict)
      → check_real files root path patterns real ≡ ok v
      → v.allowed ≡ true
      → RealFenced
  check_real-RealFenced v h allowed = check_real-with v _ refl h allowed

-- the branch for a new file ends in `check_real`, or refuses
check_new-real :
    (files : Files) (root path : String) (patterns : List String) (joined : String)
    (v : PathVerdict)
    → check_new files root path patterns joined ≡ ok v
    → v.allowed ≡ true
    → check_real files root path patterns
        (join_path (files.realpath (dirname joined)) (basename joined))
      ≡ ok v
unfolding check_new
check_new-real files root path patterns joined v h allowed = ground arith

check_text-real :
    (files : Files) (path workspace_root : String) (patterns : List String) (v : PathVerdict)
    → check_text files path workspace_root patterns ≡ ok v
    → v.allowed ≡ true
    → check_real files
        (files.realpath workspace_root)
        path
        patterns
        (resolved files path workspace_root)
      ≡ ok v
unfolding check_text
check_text-real files path workspace_root patterns v h allowed = ground (
  arith,
  check_new-real files (files.realpath workspace_root) path patterns
      (placed files path workspace_root) v,
)

check_text-Fenced :
    (files : Files) (path workspace_root : String) (patterns : List String) (v : PathVerdict)
    → check_text files path workspace_root patterns ≡ ok v
    → v.allowed ≡ true
    → Fenced files (str path) workspace_root patterns
check_text-Fenced files path workspace_root patterns v h allowed =
    let found =
      check_real-RealFenced files (files.realpath workspace_root) path patterns
        (resolved files path workspace_root) v
        (check_text-real files path workspace_root patterns v h allowed) allowed in
    record {
      path = path;
      is_text = refl;
      inside = found.inside;
      plain_name = found.plain_name;
      plain_target = found.plain_target;
    }

-- A path that `check_path` allows is a text; the file that it stands for lies in the workspace,
-- component by component and behind all links, and neither the path nor that file hits a sensitive
-- pattern.
pub check_path-Fenced :
    (files : Files) (value : Json) (workspace_root : String) (patterns : List String)
    (v : PathVerdict)
    → check_path files value workspace_root patterns ≡ ok v
    → v.allowed ≡ true
    → Fenced files value workspace_root patterns
check_path-Fenced files (str path) workspace_root patterns v h allowed =
    check_text-Fenced files path workspace_root patterns v (unfold check_path in (ground arith))
      allowed
check_path-Fenced files value workspace_root patterns v h allowed =
    unfold check_path in (ground arith)
