-- ===== src/Security/Scanner.antt =====
-- aegiscode/credentials/scanner.py. A finding's pattern is the text of the regular expression.
pub mod Lines
use aegis_code.Prelude.{
  ℕ, ◌+◌, String, Bool, true, false, List, [], ◌∷◌, ◌++◌, Result, ok, err, os_error, ◌>>=◌,
  if◌then◌else◌,
}
use aegis_code.Prelude.Text.Lines.{splitlines}
use aegis_code.Security.{Pattern, openai_key, aws_key, generic_assignment, finds}

pub record Finding : Type 0 where
  pub path : String
  pub line_no : ℕ
  pub pattern : Pattern

-- KEY_PATTERNS
abbrev pub key_patterns : List Pattern
key_patterns = openai_key ∷ aws_key ∷ generic_assignment ∷ []

unfoldable pub scan_line : String → ℕ → String → List Pattern → List Finding
scan_line path i line [] = []
scan_line path i line (p ∷ ps) =
    let rest = scan_line path i line ps in
    if finds p line then record { path = path; line_no = i; pattern = p } ∷ rest else rest

unfoldable pub scan_lines : String → ℕ → List String → List Finding
unfolding scan_line
scan_lines path i [] = []
scan_lines path i (line ∷ lines) =
    scan_line path i line key_patterns ++ scan_lines path (i + 1) lines

-- scan_text(text, path)
unfoldable pub scan_text : String → String → List Finding
unfolding scan_lines splitlines
scan_text text path = scan_lines path 1 (splitlines text)

-- scan_paths, with what reading a file gives
pub scan_paths : (String → Result String) → List String → Result (List Finding)
unfolding scan_text
scan_paths read [] = ok []
scan_paths read (p ∷ paths) =
    let rest = scan_paths read paths in
    elim (read p) [
      | ok text ↦ (rest >>= λ more. ok (scan_text text p ++ more))
      | err (os_error e) ↦ rest
      | err e ↦ err e
    ]
