-- ===== src/Governance/CommandFence/Samples.antt =====
-- A concrete command line, and the theorem on its fence at it.
use aegis_code.Prelude.{◌≡◌, refl, String, Bool, true, false, List, [], ◌∷◌, none, ok, All}
use aegis_code.Json.{Json, str}
use aegis_code.Config.{default_governance}
use aegis_code.Governance.Fence.{Files}
use aegis_code.Governance.Lexer.{LexResult, lex_command}
use aegis_code.Governance.CommandFence.{fence_command, file_consuming}
use aegis_code.Governance.CommandFence.Clears.{Clear, fence_command-clears}

abbrev no_links : Files
no_links = record { realpath = λ p. p; exists = λ p. false; islink = λ p. false }

abbrev reading : Json
reading = str "cat src/a.py"

abbrev read : LexResult
read = record {
  is_ok = true;
  argv = "cat" ∷ "src/a.py" ∷ [];
  reason = "ok";
  has_metastructure = false;
}

reading_lexed : lex_command reading ≡ ok read
unfolding lex_command
reading_lexed = refl

reading_clear :
    fence_command no_links reading "/w" default_governance.sensitive_file_patterns ≡ ok none
unfolding fence_command lex_command aegis_code.Governance.Fence.check_path
    aegis_code.Governance.Fence.commonpath aegis_code.Prelude.Text.is_abs
    aegis_code.Prelude.Text.dirname aegis_code.Prelude.Text.join_path
    aegis_code.Governance.Fence.matches_sensitive
reading_clear = refl

fence_command-clears_example :
    All
      (Clear no_links (file_consuming "cat") "/w" default_governance.sensitive_file_patterns)
      ("src/a.py" ∷ [])
fence_command-clears_example =
    fence_command-clears no_links reading "/w" default_governance.sensitive_file_patterns read "cat"
      ("src/a.py" ∷ []) reading_lexed refl refl reading_clear
