-- ===== src/Governance/Lexer/Reads.antt =====
-- The commands that aegiscode/governance/command_lexer.py accepts.
use aegis_code.Prelude.{◌≡◌, refl, String, true, false, List, [], ◌∷◌, arith, Result, ok, err, All}
use aegis_code.Prelude.Text.{contains}
use aegis_code.Json.{Json, str, arr, is_in}
use aegis_code.Governance.Lexer.{
  LexResult, lex_meta, lex_command, meta_tokens, split_json, after_split, shlex_split,
}

-- An accepted text: no shell metastructure in it, and these are its words.
pub record Reads (command : Json) (argv : List String) : Type 0 where
  pub text : String
  pub is_text : command ≡ str text
  pub plain : All (λ t. contains t text ≡ false) meta_tokens
  pub words : shlex_split text ≡ ok argv

lex_meta-plain :
    (tokens : List String) (command : Json) (lr : LexResult)
    → lex_meta tokens command ≡ ok lr
    → lr.is_ok ≡ true
    → All (λ t. is_in t command ≡ ok false) tokens × (after_split (split_json command) ≡ ok lr)
unfolding lex_meta
lex_meta-plain [] command lr h good = (tt, h)
lex_meta-plain (t ∷ ts) command lr h good = ground (arith, lex_meta-plain ts command lr)

after_split-words :
    (r : Result (List String)) (lr : LexResult)
    → after_split r ≡ ok lr
    → lr.is_ok ≡ true
    → r ≡ ok lr.argv
unfolding after_split
after_split-words (ok []) lr h good = ground arith
after_split-words (ok (w ∷ ws)) lr h good = ground arith
after_split-words (err e) lr h good = ground arith

All-contains :
    (s : String) (tokens : List String)
    → All (λ t. is_in t (str s) ≡ ok false) tokens
    → All (λ t. contains t s ≡ false) tokens
unfolding is_in
All-contains s [] h = tt
All-contains s (t ∷ ts) h = (ground (arith, h.0), All-contains s ts h.1)

-- Whatever `lex_command` accepts is a text with no shell metastructure, and shlex splits it.
pub lex_command-Reads :
    (command : Json) (lr : LexResult)
    → lex_command command ≡ ok lr
    → lr.is_ok ≡ true
    → Reads command lr.argv
unfolding lex_command split_json
lex_command-Reads (str s) lr h good =
    let (plain, split) = lex_meta-plain meta_tokens (str s) lr h good in
    record {
      text = s;
      is_text = refl;
      plain = All-contains s meta_tokens plain;
      words = after_split-words (shlex_split s) lr split good;
    }
lex_command-Reads (arr xs) lr h good = ground (arith, lex_meta-plain meta_tokens (arr xs) lr h good)
lex_command-Reads command lr h good = ground (arith, lex_meta-plain meta_tokens command lr h good)
