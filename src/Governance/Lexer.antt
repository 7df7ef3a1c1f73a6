-- ===== src/Governance/Lexer.antt =====
-- aegiscode/governance/command_lexer.py, with the POSIX reading of `shlex.split` as a machine that
-- takes one character at a time.
pub mod Reads
use aegis_code.Prelude.{
  ℕ, String, Char, code, Bool, true, false, not, ◌&&◌, ◌||◌, List, [], ◌∷◌, ◌++◌, Result, ok, err,
  ◌>>=◌, value_error, attribute_error, nat_eq, if◌then◌else◌,
}
use aegis_code.Prelude.Text.{◌+s◌, is_char, is_empty}
use aegis_code.Prelude.Text.Repr.{repr}
use aegis_code.Json.{Json, null, str, is_in, type_name}

-- the state of shlex's `read_token`: between words, in a word, in a quotation, or behind a
-- backslash that began in a word (0) or in a quotation (its quote)
pub data Mode : Type 0 where
  between : Mode
  word : Mode
  quotation : ℕ → Mode
  escaped : ℕ → Mode

pub record Shlex : Type 0 where
  pub mode : Mode
  pub token : String
  pub quoted : Bool

abbrev pub start : Shlex
start = record { mode = between; token = ""; quoted = false }

pub is_space : Char → Bool
is_space c = is_char 32 c || is_char 9 c || is_char 13 c || is_char 10 c

pub is_quote : Char → Bool
is_quote c = is_char 39 c || is_char 34 c

abbrev one_char : Char → String
one_char c = String.◌∷◌ c String.[]

-- a word is handed out if it has a character or had a quotation
flush : Shlex → List String
flush st = if is_empty st.token && not st.quoted then [] else st.token ∷ []

-- one round of the loop: the next state, and the word that ended here
step_in : Mode → Shlex → Char → Shlex × List String
unfolding is_space is_quote flush
step_in between st c =
    if is_space c
    then (st, [])
    else if is_char 92 c
    then (record st { mode = escaped 0 }, [])
    else if is_quote c
    then (record st { mode = quotation (code c) }, [])
    else (record st { mode = word; token = one_char c }, [])
step_in word st c =
    if is_space c
    then (start, flush st)
    else if is_quote c
    then (record st { mode = quotation (code c) }, [])
    else if is_char 92 c
    then (record st { mode = escaped 0 }, [])
    else (record st { token = st.token +s one_char c }, [])
step_in (quotation q) st c =
    if is_char q c
    then (record st { mode = word; quoted = true }, [])
    else if is_char 92 c && nat_eq q 34
    then (record st { mode = escaped q; quoted = true }, [])
    else (record st { token = st.token +s one_char c; quoted = true }, [])
step_in (escaped ℕ.zero) st c = (record st { mode = word; token = st.token +s one_char c }, [])
step_in (escaped q) st c = (
  record st {
    mode = quotation q;
    token = st.token +s (if is_char 92 c || is_char q c then one_char c else "\\" +s one_char c);
  },
  [],
)

-- the end of the text
finish_in : Mode → Shlex → Result (List String)
unfolding flush
finish_in between st = ok []
finish_in word st = ok (flush st)
finish_in (quotation q) st = err (value_error "No closing quotation")
finish_in (escaped q) st = err (value_error "No escaped character")

abbrev prepend : List String → Result (List String) → Result (List String)
prepend out (ok words) = ok (out ++ words)
prepend out (err e) = err e

unfoldable pub scan : Shlex → String → Result (List String)
unfolding step_in finish_in
scan st String.[] = finish_in st.mode st
scan st (String.◌∷◌ c s) = let (st', out) = step_in st.mode st c in prepend out (scan st' s)

-- shlex.split(s)
unfoldable pub shlex_split : String → Result (List String)
unfolding scan
shlex_split s = scan start s

pub record LexResult : Type 0 where
  pub is_ok : Bool
  pub argv : List String
  pub reason : String
  pub has_metastructure : Bool

abbrev pub meta_tokens : List String
meta_tokens =
    "&&" ∷ "||" ∷ "$(" ∷ ">>" ∷ "|" ∷ ">" ∷ "<" ∷ ";" ∷ "`" ∷ "&" ∷ "(" ∷ ")" ∷ "*" ∷ "?" ∷ "["
    ∷ "{" ∷ "\n" ∷ "\r" ∷ []

abbrev refused : String → Bool → LexResult
refused why has_meta = record {
  is_ok = false;
  argv = [];
  reason = why;
  has_metastructure = has_meta;
}

-- `shlex.split(command)` of a value of any type
unfoldable pub split_json : Json → Result (List String)
unfolding shlex_split type_name
split_json (str s) = shlex_split s
split_json null = err (value_error "s argument must not be None")
split_json v = err (attribute_error ("'" +s type_name v +s "' object has no attribute 'read'"))

-- the `try` about `shlex.split` and the two tests behind it
after_split : Result (List String) → Result LexResult
after_split (err (value_error why)) = ok (refused ("lex error: " +s why) false)
after_split (err e) = err e
after_split (ok []) = ok (refused "empty command" false)
after_split (ok (w ∷ ws)) =
    ok (record { is_ok = true; argv = w ∷ ws; reason = "ok"; has_metastructure = false })

-- the loop over `_META`
lex_meta : List String → Json → Result LexResult
unfolding split_json after_split
lex_meta [] command = after_split (split_json command)
lex_meta (token ∷ tokens) command =
    let rest = lex_meta tokens command in
    is_in token command >>= λ found.
    if found
    then ok (refused ("shell metastructure " +s repr token +s " not allowed") true)
    else rest

-- lex_command; the argument is whatever the action carries under "command"
unfoldable pub lex_command : Json → Result LexResult
unfolding lex_meta is_in repr
lex_command command = lex_meta meta_tokens command
