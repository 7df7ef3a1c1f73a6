-- ===== src/Governance/CommandFence.antt =====
-- `_fence_command` of aegiscode/governance/dispatcher.py, the fence about the arguments of a command.
pub mod Clears
mod Samples
use aegis_code.Prelude.{
  String, Char, Bool, true, false, not, ◌&&◌, ◌||◌, List, [], ◌∷◌, Option, none, some, Result, ok,
  err, index_error, ◌>>=◌, ◌==◌, any, if◌then◌else◌,
}
use aegis_code.Prelude.Text.{is_char, starts_with, has_char, contains, after, basename}
use aegis_code.Json.{Json, str}
use aegis_code.Glob.{fnmatch}
use aegis_code.Governance.Lexer.{LexResult, lex_command}
use aegis_code.Governance.Rules.{is_digit, strip_prefix}
use aegis_code.Governance.Fence.{Files, PathVerdict, check_path}

-- s without a line feed at its end, which `$` passes over
chop_line : String → String
chop_line String.[] = String.[]
chop_line (String.◌∷◌ c String.[]) = if is_char 10 c then String.[] else String.◌∷◌ c String.[]
chop_line (String.◌∷◌ c (String.◌∷◌ d s)) = String.◌∷◌ c (chop_line (String.◌∷◌ d s))

all_version : String → Bool
unfolding is_digit
all_version String.[] = true
all_version (String.◌∷◌ c s) = (is_digit c || is_char b'.' c) && all_version s

-- _FILE_CONSUMING_ARGV0.match: python\d?[\d.]*, pytest, ruff or mypy
unfoldable pub file_consuming : String → Bool
unfolding chop_line all_version strip_prefix
file_consuming argv0 =
    let name = chop_line argv0 in
    elim (strip_prefix name "python") [
      | none ↦ name == "pytest" || name == "ruff" || name == "mypy"
      | some tail ↦ all_version tail
    ]

-- _looks_like_path
unfoldable pub looks_like_path : String → Bool
unfolding starts_with has_char
looks_like_path token =
    starts_with token "/"
    || starts_with token "./"
    || starts_with token "../"
    || has_char b'/' token

-- the value after a leading --opt=
unfoldable pub candidate : String → String
unfolding starts_with has_char after
candidate token = if starts_with token "--" && has_char b'=' token then after b'=' token else token

unfoldable pub sensitive_name : String → List String → Bool
unfolding basename fnmatch
sensitive_name c patterns = any (fnmatch (basename c)) patterns

-- the reasons that every command is refused for
unfoldable pub is_escape : String → Bool
unfolding contains
is_escape reason = contains "escape" reason || contains "outside workspace" reason

-- whether a token is looked at
abbrev pub is_checked : String → List String → Bool
is_checked c patterns = looks_like_path c || sensitive_name c patterns

-- the verdict on a token as a reason to refuse, or none
unfoldable pub token_reason : Bool → PathVerdict → Option String
unfolding is_escape
token_reason consuming pv =
    if pv.allowed then none else if is_escape pv.reason || consuming then some pv.reason else none

-- one round of the loop
unfoldable pub fence_token : Files → Bool → String → List String → String → Result (Option String)
fence_token files consuming root patterns token =
    let c = candidate token in
    if is_checked c patterns
    then (check_path files (str c) root patterns >>= λ pv. ok (token_reason consuming pv))
    else ok none

first_reason : Result (Option String) → Result (Option String) → Result (Option String)
first_reason (err e) rest = err e
first_reason (ok (some why)) rest = ok (some why)
first_reason (ok none) rest = rest

fence_tokens : Files → Bool → String → List String → List String → Result (Option String)
unfolding first_reason
fence_tokens files consuming root patterns [] = ok none
fence_tokens files consuming root patterns (t ∷ ts) =
    let rest = fence_tokens files consuming root patterns ts in
    first_reason (fence_token files consuming root patterns t) rest

fence_argv : Files → String → List String → List String → Result (Option String)
fence_argv files root patterns [] = ok none
fence_argv files root patterns (argv0 ∷ args) =
    fence_tokens files (file_consuming argv0) root patterns args

-- _fence_command; a command that cannot be read is left to the command judge
unfoldable pub fence_command : Files → Json → String → List String → Result (Option String)
unfolding fence_argv fence_tokens fence_token file_consuming candidate looks_like_path
    sensitive_name token_reason
fence_command files command root patterns = lex_command command >>= λ lr.
    if lr.is_ok then fence_argv files root patterns lr.argv else ok none
