-- ===== src/Governance/Fence.antt =====
-- aegiscode/governance/path_fence.py. The file system is a parameter: what `os.path.realpath`,
-- `exists` and `islink` answer at the moment of the check.
pub mod Inside
pub mod Allows
pub mod Escapes
mod Samples
use aegis_code.Prelude.{
  String, Bool, true, false, not, ◌&&◌, ◌||◌, List, [], ◌∷◌, Option, none, some, Result, ok, err,
  value_error, ◌>>=◌, ◌==◌, any, if◌then◌else◌,
}
use aegis_code.Prelude.Text.{
  ◌+s◌, is_empty, is_abs, split_on, join_with, join_path, basename, dirname, rstrip, mem_text,
}
use aegis_code.Json.{Json, str, is_falsy}
use aegis_code.Glob.{fnmatch}

pub record Files : Type 0 where
  pub realpath : String → String
  pub exists : String → Bool
  pub islink : String → Bool

pub record PathVerdict : Type 0 where
  pub allowed : Bool
  pub reason : String

abbrev permit : PathVerdict
permit = record { allowed = true; reason = "ok" }

abbrev forbid : String → PathVerdict
forbid why = record { allowed = false; reason = why }

-- the components of a path: `commonpath` leaves out the empty ones and `.`
keep_parts : List String → List String
keep_parts [] = []
keep_parts (p ∷ ps) = let rest = keep_parts ps in if is_empty p || p == "." then rest else p ∷ rest

unfoldable pub components : String → List String
unfolding keep_parts split_on
components p = keep_parts (split_on b'/' p)

unfoldable pub common_prefix : List String → List String → List String
common_prefix [] ys = []
common_prefix (x ∷ xs) [] = []
common_prefix (x ∷ xs) (y ∷ ys) = let rest = common_prefix xs ys in if x == y then x ∷ rest else []

-- os.path.commonpath([a, b])
unfoldable pub commonpath : String → String → Result String
unfolding components common_prefix join_with
commonpath a b =
    let shared = join_with "/" (common_prefix (components a) (components b)) in
    if is_abs a
    then (if is_abs b
        then ok ("/" +s shared)
        else err (value_error "Can't mix absolute and relative paths"))
    else if is_abs b
    then err (value_error "Can't mix absolute and relative paths")
    else ok shared

-- one pattern against the name and the segments of a path
unfoldable pub hits : String → String → Bool
unfolding basename split_on rstrip mem_text
hits p pat = fnmatch (basename p) pat || mem_text (rstrip b'/' pat) (split_on b'/' p)

-- _matches_sensitive
unfoldable pub matches_sensitive : String → List String → Bool
unfolding hits
matches_sensitive p patterns = any (hits p) patterns

-- the loop that names the pattern
blocked_by : String → String → List String → PathVerdict
unfolding hits
blocked_by path real [] = permit
blocked_by path real (pat ∷ pats) =
    if hits path pat || hits real pat
    then forbid ("sensitive file blocked: " +s pat)
    else blocked_by path real pats

-- the last two tests, on the place that the path stands for
check_real : Files → String → String → List String → String → Result PathVerdict
check_real files root path patterns real = commonpath (files.realpath real) root >>= λ common.
    if not (common == root)
    then ok (forbid "path escapes workspace (traversal/symlink)")
    else if matches_sensitive path patterns || matches_sensitive real patterns
    then ok (blocked_by path real patterns)
    else ok permit

-- the branch for a new file fences its parent
check_new : Files → String → String → List String → String → Result PathVerdict
check_new files root path patterns joined =
    let parent = files.realpath (dirname joined) in
    commonpath parent root >>= λ common.
    if not (common == root)
    then ok (forbid "parent dir outside workspace")
    else check_real files root path patterns (join_path parent (basename joined))

check_text : Files → String → String → List String → Result PathVerdict
check_text files path workspace_root patterns =
    let root = files.realpath workspace_root in
    let joined = if is_abs path then path else join_path root path in
    if files.islink joined || files.exists joined
    then check_real files root path patterns (files.realpath joined)
    else check_new files root path patterns joined

-- check_path; the path is whatever the action carries
unfoldable pub check_path : Files → Json → String → List String → Result PathVerdict
unfolding check_text check_new check_real blocked_by
check_path files (str path) workspace_root patterns =
    if is_empty path
    then ok (forbid "empty or non-string path")
    else check_text files path workspace_root patterns
check_path files _ workspace_root patterns = ok (forbid "empty or non-string path")
