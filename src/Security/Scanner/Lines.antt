-- ===== src/Security/Scanner/Lines.antt =====
-- The lines of a text against the text, for the patterns of aegiscode/security/redactor.py, and what
-- the scanner of aegiscode/credentials/scanner.py finds in a redacted text.
use aegis_code.Prelude.{
  ◌≡◌, refl, inl, inr, ◌+◌, ℕ, String, Bool, false, ◌&&◌, List, arith, Bool-cases, any,
}
use aegis_code.Prelude.Text.{is_char, onto_first}
use aegis_code.Prelude.Text.Lines.{is_break, lines_from, splitlines}
use aegis_code.Security.{Pattern, openai_key, aws_key, generic_assignment, finds, redact_keys}
use aegis_code.Security.Below.{Below, stop, same}
use aegis_code.Security.Clean.{finds-redact_keys, finds-nil, no_match-Below}
use aegis_code.Security.Scanner.{key_patterns, scan_line, scan_lines, scan_text}
use Prim.Native.Char.{Char}
use Prim.Native.String.{[], ◌∷◌}

-- the first line stands at the head of the text
abbrev Heads : List String → String → Type 0
Heads List.[] s = Unit
Heads (List.◌∷◌ line lines) s = Below line s

break_of_return : (c : Char) → is_break c ≡ false → is_char 13 c ≡ false
unfolding is_break
break_of_return c h = ground arith

onto_first-Heads :
    (c : Char) (lines : List String) (s : String)
    → Heads lines s
    → Heads (onto_first c lines) (c ∷ s)
onto_first-Heads c List.[] s h = same c (stop s)
onto_first-Heads c (List.◌∷◌ line lines) s h = same c h

lines_from-Heads : (s : String) → Heads (lines_from false s) s
unfolding lines_from
lines_from-Heads [] = tt
lines_from-Heads (c ∷ s) = elim (Bool-cases (is_break c)) [
  | inl ends ↦ rw ends (stop (c ∷ s))
  | inr goes ↦
      rw (goes, break_of_return c goes)
        (onto_first-Heads c (lines_from false s) s (lines_from-Heads s))
]

onto_first-free :
    (q : Pattern) (c : Char) (lines : List String) (s : String)
    → Heads lines s
    → finds q (c ∷ s) ≡ false
    → any (finds q) lines ≡ false
    → any (finds q) (onto_first c lines) ≡ false
unfolding finds
onto_first-free q c List.[] s h free rest =
    ground (arith, finds-nil q, no_match-Below q (c ∷ []) (c ∷ s) (same c (stop s)))
onto_first-free q c (List.◌∷◌ line lines) s h free rest =
    ground (arith, no_match-Below q (c ∷ line) (c ∷ s) (same c h))

-- no line of a text holds a match, if the text holds none
lines_from-free :
    (q : Pattern) (after_cr : Bool) (s : String)
    → finds q s ≡ false
    → any (finds q) (lines_from after_cr s) ≡ false
unfolding lines_from
lines_from-free q after_cr [] free = refl
lines_from-free q after_cr (c ∷ s) free =
    let tail_free : finds q s ≡ false = unfold finds in (ground arith) in
    let rest = lines_from-free q (is_char 13 c) s tail_free in
    let unbroken = lines_from-free q false s tail_free in
    elim (Bool-cases (after_cr && is_char 10 c)) [
      | inl skips ↦ rw skips rest
      | inr stays ↦ elim (Bool-cases (is_break c)) [
        | inl ends ↦ rw (stays, ends, finds-nil q) rest
        | inr goes ↦
            rw (stays, goes, break_of_return c goes)
              (onto_first-free q c (lines_from false s) s (lines_from-Heads s) free unbroken)
      ]
    ]

scan_line-free :
    (path line : String) (i : ℕ)
    → ((q : Pattern) → finds q line ≡ false)
    → scan_line path i line key_patterns ≡ List.[]
unfolding scan_line
scan_line-free path line i free = rw (free openai_key, free aws_key, free generic_assignment) refl

scan_lines-free :
    (path : String) (i : ℕ) (lines : List String)
    → ((q : Pattern) → any (finds q) lines ≡ false)
    → scan_lines path i lines ≡ List.[]
unfolding scan_lines
scan_lines-free path i List.[] free = refl
scan_lines-free path i (List.◌∷◌ line lines) free =
    rw
      (
        scan_line-free path line i (λ q. ground (arith, free q)),
        scan_lines-free path (i + 1) lines (λ q. ground (arith, free q)),
      )
      refl

-- The scanner finds nothing in a text in which no pattern is found.
pub scan_text-free :
    (text path : String) → ((q : Pattern) → finds q text ≡ false) → scan_text text path ≡ List.[]
unfolding scan_text splitlines
scan_text-free text path free =
    scan_lines-free path 1 (lines_from false text) (λ q. lines_from-free q false text (free q))

-- The scanner finds nothing in a redacted text, whatever the text was.
pub scan_text-redact_keys : (text path : String) → scan_text (redact_keys text) path ≡ List.[]
scan_text-redact_keys text path =
    scan_text-free (redact_keys text) path (λ q. finds-redact_keys q text)
