-- ===== src/Security.antt =====
-- aegiscode/security/redactor.py: the three credential patterns as matchers at the head of a text,
-- and `redact`. A pattern is written as the regular expression engine reads it: its parts are
-- disjoint where one ends and the next begins, so the greedy reading is the only one.
pub mod Below
pub mod Clean
pub mod Scanner
pub mod Quoted
mod Samples
use aegis_code.Prelude.{
  ◌≡◌, refl, ℕ, zero, suc, ◌+◌, ◌-◌, String, Char, code, Bool, true, false, ◌&&◌, ◌||◌, List,
  Option, none, some, nat_eq, leb, if◌then◌else◌,
}
use aegis_code.Prelude.Text.{◌+s◌, is_char, is_empty, rstrip, text_length}
use aegis_code.Prelude.Text.Lines.{is_white}
use Prim.Native.String.{[], ◌∷◌}

abbrev pub in_range : ℕ → ℕ → ℕ → Bool
in_range lo hi n = leb lo n && leb n hi

-- [A-Za-z0-9_-]
unfoldable pub key_char : Char → Bool
key_char c =
    let n = code c in
    in_range b'A' b'Z' n
    || in_range b'a' b'z' n
    || in_range b'0' b'9' n
    || nat_eq n b'_'
    || nat_eq n b'-'

-- [0-9A-Z]
unfoldable pub aws_char : Char → Bool
aws_char c = let n = code c in in_range b'0' b'9' n || in_range b'A' b'Z' n

-- [A-Za-z0-9\-_+/=] where case is ignored: four letters beyond ASCII have one of these as their
-- other case
unfoldable pub value_char : Char → Bool
unfolding key_char
value_char c =
    let n = code c in
    key_char c
    || nat_eq n b'+'
    || nat_eq n b'/'
    || nat_eq n b'='
    || nat_eq n 304
    || nat_eq n 305
    || nat_eq n 383
    || nat_eq n 8490

-- at least `n` characters of a class
unfoldable pub at_least : (Char → Bool) → ℕ → String → Bool
at_least p zero s = true
at_least p (suc n) [] = false
at_least p (suc n) (c ∷ s) = p c && at_least p n s

-- how many characters of a class there are at the head
unfoldable pub run_length : (Char → Bool) → String → ℕ
run_length p [] = 0
run_length p (c ∷ s) = let rest = run_length p s in if p c then suc rest else 0

-- a letter of a keyword, given in upper case; K and S also stand for a letter beyond ASCII
unfoldable pub same_letter : ℕ → Char → Bool
same_letter k c =
    let n = code c in
    nat_eq n k
    || nat_eq n (k + 32)
    || (nat_eq k b'K' && nat_eq n 8490)
    || (nat_eq k b'S' && nat_eq n 383)

-- what is left behind some letters, in any case, or in exactly theirs
unfoldable pub behind_word : String → String → Option String
unfolding same_letter
behind_word [] s = some s
behind_word (k ∷ ks) [] = none
behind_word (k ∷ ks) (c ∷ s) =
    let rest = behind_word ks s in if same_letter (code k) c then rest else none

unfoldable pub behind : String → String → Option String
behind [] s = some s
behind (k ∷ ks) [] = none
behind (k ∷ ks) (c ∷ s) = let rest = behind ks s in if is_char (code k) c then rest else none

-- \s*
unfoldable pub behind_white : String → String
unfolding is_white
behind_white [] = []
behind_white (c ∷ s) = let rest = behind_white s in if is_white c then rest else c ∷ s

-- ['"]?
unfoldable pub behind_quote : String → String
behind_quote [] = []
behind_quote (c ∷ s) = if is_char 39 c || is_char 34 c then s else c ∷ s

-- one alternative, or the next
abbrev pub or_next : Option String → Option String → Option String
or_next none other = other
or_next (some r) other = some r

-- KEY|TOKEN|PASSWORD|SECRET
unfoldable pub behind_keyword : String → Option String
unfolding behind_word
behind_keyword s =
    or_next (behind_word "KEY" s) (
      or_next (behind_word "TOKEN" s) (or_next (behind_word "PASSWORD" s) (behind_word "SECRET" s)))

abbrev pub then_some {ℓ} : {A : Type ℓ} → Option String → (String → A) → A → A
then_some none f d = d
then_some (some r) f d = f r

-- the part of the generic assignment behind its keyword, up to the value
unfoldable pub behind_equals : String → Option String
unfolding behind behind_white behind_quote
behind_equals s =
    then_some (behind "=" (behind_white s)) (λ r. some (behind_quote (behind_white r))) none

pub data Pattern : Type 0 where
  openai_key aws_key generic_assignment : Pattern

-- whether a pattern matches at the head
unfoldable pub matches : Pattern → String → Bool
unfolding behind key_char aws_char value_char at_least behind_keyword behind_equals
matches openai_key s = then_some (behind "sk-" s) (at_least key_char 20) false
matches aws_key s = then_some (behind "AKIA" s) (at_least aws_char 16) false
matches generic_assignment s =
    then_some (behind_keyword s) (λ r. then_some (behind_equals r) (at_least value_char 16) false)
      false

drop_text : ℕ → String → String
drop_text zero s = s
drop_text (suc n) [] = []
drop_text (suc n) (c ∷ s) = drop_text n s

-- s without its first characters of a class
drop_run : (Char → Bool) → String → String
drop_run p [] = []
drop_run p (c ∷ s) = let rest = drop_run p s in if p c then rest else c ∷ s

-- what is left behind a match at the head
behind_match : Pattern → String → String
unfolding drop_text drop_run behind behind_keyword behind_equals key_char value_char
behind_match openai_key s = then_some (behind "sk-" s) (drop_run key_char) s
behind_match aws_key s = then_some (behind "AKIA" s) (drop_text 16) s
behind_match generic_assignment s =
    then_some (behind_keyword s) (λ r. then_some (behind_equals r) (drop_run value_char) s) s

-- the length of a match at the head
pub span : Pattern → String → ℕ
unfolding behind_match text_length
span p s = text_length s - text_length (behind_match p s)

-- "[REDACTED]" + s
abbrev pub mark : String → String
mark s = "[" ∷ "R" ∷ "E" ∷ "D" ∷ "A" ∷ "C" ∷ "T" ∷ "E" ∷ "D" ∷ "]" ∷ s

-- p.sub("[REDACTED]", s), with the characters of the last match that are still to be passed over
unfoldable pub substitute : Pattern → ℕ → String → String
unfolding matches span
substitute p skip [] = []
substitute p (suc k) (c ∷ s) = substitute p k s
substitute p zero (c ∷ s) =
    let replaced = mark (substitute p (span p (c ∷ s) - 1) s) in
    let kept = c ∷ substitute p zero s in if matches p (c ∷ s) then replaced else kept

-- p.search(s)
unfoldable pub finds : Pattern → String → Bool
unfolding matches
finds p [] = matches p []
finds p (c ∷ s) = matches p (c ∷ s) || finds p s

-- the loop over the patterns
unfoldable pub redact_keys : String → String
unfolding substitute
redact_keys text =
    substitute generic_assignment zero (substitute aws_key zero (substitute openai_key zero text))

-- (?=/|$|[\s:])
abbrev at_boundary : String → Bool
unfolding is_white
at_boundary [] = true
at_boundary (c ∷ s) = is_char b'/' c || is_white c || is_char b':' c

-- re.sub of a literal text where the rest passes a test, by nothing
delete : (String → Bool) → String → ℕ → String → String
unfolding behind text_length
delete ok word skip [] = []
delete ok word (suc k) (c ∷ s) = delete ok word k s
delete ok word zero (c ∷ s) =
    let cut = delete ok word (text_length word - 1) s in
    let kept = c ∷ delete ok word zero s in
    if then_some (behind word (c ∷ s)) ok false then (if is_empty word then kept else cut) else kept

-- redact
unfoldable pub redact : Option String → String → String
unfolding redact_keys delete rstrip
redact none text = redact_keys text
redact (some workspace_root) text =
    let root = rstrip b'/' workspace_root in
    let keyless = redact_keys text in
    let within = delete (λ rest. true) (root +s "/") zero keyless in
    if is_empty workspace_root then keyless else delete at_boundary root zero within

redact_test :
    redact (some "/w/") "x sk-aaaaaaaaaaaaaaaaaaaaaaaa y, /w/a /w: /wx" ≡ "x [REDACTED] y, a : /wx"
unfolding redact
redact_test = refl
