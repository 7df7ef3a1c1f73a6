-- ===== src/Protocol/Fenced.antt =====
-- The fence of a reply in aegiscode/protocol/parser.py.
use aegis_code.Prelude.{
  ◌≡◌, refl, ◌∙◌, String, Char, code, false, none, some, Bool-cases, inl, inr, ◌>>=◌, arith, nat_eq,
}
use aegis_code.Prelude.Text.{is_char, has_char, ◌+s◌}
use aegis_code.Prelude.Text.Lines.{lstrip, is_white}
use aegis_code.Governance.Rules.{strip_prefix}
use aegis_code.Protocol.{
  Decoder, closes, fence_body, braced, fence_at, fence_search, as_parse_error, action_of, data_of,
  parse_action,
}
use text.Mathlib.TextLemmas.{nil-append, cons-append}
use Prim.Native.String.{[], ◌∷◌}

-- ```json, a line's end and a brace, before a text
abbrev pub opened : String → String
opened s = "`" ∷ "`" ∷ "`" ∷ "j" ∷ "s" ∷ "o" ∷ "n" ∷ "\n" ∷ "{" ∷ s

-- a brace, a line's end and ```, before a text
abbrev pub closed : String → String
closed s = "}" ∷ "\n" ∷ "`" ∷ "`" ∷ "`" ∷ s

no_tick :
    (c : Char) (s : String)
    → has_char b'`' (c ∷ s) ≡ false
    → (nat_eq (code c) b'`' ≡ false) × (has_char b'`' s ≡ false)
unfolding has_char
no_tick c s h = (ground arith, ground arith)

-- a text that has no backtick up to a closing brace is not the end of a fence
closes-plain :
    (inner rest : String) → has_char b'`' inner ≡ false → closes (inner +s "}" ∷ rest) ≡ false
unfolding closes lstrip strip_prefix is_white
closes-plain [] rest h = rw nil-append refl
closes-plain (c ∷ s) rest h =
    let (other, plain) = no_tick c s h in
    rw cons-append (elim (Bool-cases (is_white c)) [
      | inl white ↦ rw white (closes-plain s rest plain)
      | inr black ↦ rw (black, other) refl
    ])

fence_body-plain :
    (inner rest : String)
    → has_char b'`' inner ≡ false
    → fence_body (inner +s closed rest) ≡ some (inner +s "}")
unfolding fence_body closes strip_prefix lstrip
fence_body-plain [] rest h = rw (nil-append, nil-append) refl
fence_body-plain (c ∷ s) rest h =
    let (other, plain) = no_tick c s h in
    rw (cons-append, cons-append, fence_body-plain s rest plain)
      (elim (Bool-cases (is_char b'}' c)) [
        | inl brace ↦ rw (brace, closes-plain s ("\n" ∷ "`" ∷ "`" ∷ "`" ∷ rest) plain) refl
        | inr letter ↦ rw letter refl
      ])

fence_search-opened :
    (inner rest : String)
    → has_char b'`' inner ≡ false
    → fence_search (opened (inner +s closed rest)) ≡ some ("{" ∷ (inner +s "}"))
unfolding fence_search fence_at braced strip_prefix lstrip is_white
fence_search-opened inner rest h = rw (fence_body-plain inner rest h) refl

strip_prefix-other :
    (c : Char) (s : String) → nat_eq (code c) b'`' ≡ false → strip_prefix (c ∷ s) "```json" ≡ none
unfolding strip_prefix
strip_prefix-other c s other = rw other refl

fence_at-other : (c : Char) (s : String) → nat_eq (code c) b'`' ≡ false → fence_at (c ∷ s) ≡ none
unfolding fence_at
fence_at-other c s other = rw (fence_at, strip_prefix-other c s other) refl

fence_search-other :
    (c : Char) (s : String) → nat_eq (code c) b'`' ≡ false → fence_search (c ∷ s) ≡ fence_search s
unfolding fence_search
fence_search-other c s other = rw (fence_search, fence_at-other c s other) refl

fence_search-plain :
    (before t : String) → has_char b'`' before ≡ false → fence_search (before +s t) ≡ fence_search t
fence_search-plain [] t h = rw nil-append refl
fence_search-plain (c ∷ s) t h =
    let (other, plain) = no_tick c s h in
    rw cons-append (fence_search-other c (s +s t) other ∙ fence_search-plain s t plain)

-- A reply with a fenced object: the action is what the object gives, whatever stands before the
-- fence without a backtick and whatever stands behind it, if the object holds no backtick.
pub parse_action-fenced :
    (d : Decoder) (before inner behind : String)
    → has_char b'`' before ≡ false
    → has_char b'`' inner ≡ false
    → parse_action d (before +s opened (inner +s closed behind))
      ≡ (as_parse_error (d.loads ("{" ∷ (inner +s "}"))) >>= action_of d)
unfolding parse_action data_of
parse_action-fenced d before inner behind h h' =
    rw
      (
        fence_search-plain before (opened (inner +s closed behind)) h,
        fence_search-opened inner behind h',
      )
      refl
