-- ===== src/Json/Dumps/Quoted.antt =====
-- What the canonical text of an action, as aegiscode/governance/approval.py makes it, says of the
-- action: the last bare quote but one opens the tool's name.
use text.Mathlib.TextLemmas.{
  nil-append, cons-append, append_assoc, append_cancel_left, append_cancel_right,
}
use Prim.Native.String.{[], ◌∷◌}
use aegis_code.Prelude.{
  ◌≡◌, refl, sym, ap, ◌∙◌, ℕ, ◌/◌, ◌%◌, String, Char, Bool, true, false, not, ◌&&◌, Option, none,
  some, if◌then◌else◌, Bool-cases, inl, inr, nat_eq, code, ltb,
}
use aegis_code.Prelude.Text.{◌+s◌, is_char, join_with}
use aegis_code.Prelude.Text.Repr.{digit-bare}
use aegis_code.Json.{Json, str, obj, field, end}
use aegis_code.Json.Dumps.{escape_char, escape, escape_wide, hex4, quote, show_member, dumps}

-- what stands behind a quote, unless a later one was found
abbrev or_here : Option String → Bool → String → Option String
or_here (some t) bare s = some t
or_here none bare s = if bare then some s else none

-- what stands behind the last quote that has no backslash before it
after_last : Bool → String → Option String
after_last escaped [] = none
after_last escaped (c ∷ s) = or_here (after_last (is_char 92 c) s) (is_char 34 c && not escaped) s

-- no quote without a backslash before it
NoBare : String → Type 0
NoBare s = (escaped : Bool) → after_last escaped s ≡ none

plain-NoBare : (c : Char) (s : String) → is_char 34 c ≡ false → NoBare s → NoBare (c ∷ s)
unfolding NoBare after_last
plain-NoBare c s other h escaped = rw (h (is_char 92 c), other) refl

-- a backslash, and any character behind it
pair-NoBare : (c : Char) (s : String) → NoBare s → NoBare ("\\" ∷ c ∷ s)
unfolding NoBare after_last
pair-NoBare c s h escaped =
    rw (h (is_char 92 c))
      (elim (Bool-cases (is_char 34 c)) [ inl q ↦ rw q refl | inr q ↦ rw q refl ])

-- a text that may stand before any such text
IsSafe : String → Type 0
IsSafe x = (s : String) → NoBare s → NoBare (x +s s)

append-IsSafe : (x y : String) → IsSafe x → IsSafe y → IsSafe (x +s y)
unfolding IsSafe
append-IsSafe x y hx hy s h = rw (append_assoc x y s) (hx (y +s s) (hy s h))

char-IsSafe : (c : Char) → is_char 34 c ≡ false → IsSafe (c ∷ [])
unfolding IsSafe
char-IsSafe c other s h = rw (cons-append c [] s, nil-append s) (plain-NoBare c s other h)

pair-IsSafe : (c : Char) → IsSafe ("\\" ∷ c ∷ [])
unfolding IsSafe
pair-IsSafe c s h =
    rw (cons-append "\\" (c ∷ []) s, cons-append c [] s, nil-append s) (pair-NoBare c s h)

hex4-IsSafe : (n : ℕ) → IsSafe (hex4 n)
unfolding hex4
hex4-IsSafe n = append-IsSafe "\\u" _ (pair-IsSafe "u") (
    append-IsSafe _ _ (char-IsSafe _ (digit-bare (n / 4096))) (
      append-IsSafe _ _ (char-IsSafe _ (digit-bare (n / 256 % 16))) (
        append-IsSafe _ _ (char-IsSafe _ (digit-bare (n / 16 % 16)))
          (char-IsSafe _ (digit-bare (n % 16))))))

wide-IsSafe : (n : ℕ) → IsSafe (escape_wide n)
unfolding escape_wide
wide-IsSafe n = elim (Bool-cases (ltb n 65536)) [
  | inl small ↦ rw small (hex4-IsSafe n)
  | inr large ↦ rw large (append-IsSafe _ _ (hex4-IsSafe _) (hex4-IsSafe _))
]

last-IsSafe :
    (c : Char) (b : Bool)
    → is_char 34 c ≡ false
    → IsSafe (if b then c ∷ [] else escape_wide (code c))
last-IsSafe c true other = char-IsSafe c other
last-IsSafe c false other = wide-IsSafe (code c)

if-IsSafe : (b : Bool) (x y : String) → IsSafe x → IsSafe y → IsSafe (if b then x else y)
if-IsSafe true x y hx hy = hx
if-IsSafe false x y hx hy = hy

escape_char-IsSafe : (c : Char) → IsSafe (escape_char c)
unfolding escape_char
escape_char-IsSafe c = elim (Bool-cases (nat_eq (code c) 34)) [
  | inl is ↦ rw is (pair-IsSafe "\"")
  | inr other ↦ rw other (
      if-IsSafe _ _ _ (pair-IsSafe "\\") (
        if-IsSafe _ _ _ (pair-IsSafe "n") (
          if-IsSafe _ _ _ (pair-IsSafe "r") (
            if-IsSafe _ _ _ (pair-IsSafe "t") (
              if-IsSafe _ _ _ (pair-IsSafe "f")
                (if-IsSafe _ _ _ (pair-IsSafe "b") (last-IsSafe c _ other)))))))
]

escape-NoBare : (s : String) → NoBare (escape s)
unfolding escape IsSafe
escape-NoBare [] = unfold NoBare after_last in (λ escaped. refl)
escape-NoBare (c ∷ s) = escape_char-IsSafe c (escape s) (escape-NoBare s)

after_last-append :
    (x y t : String)
    → ((escaped : Bool) → after_last escaped y ≡ some t)
    → (escaped : Bool) → after_last escaped (x +s y) ≡ some t
unfolding after_last
after_last-append [] y t h escaped = rw (nil-append y) (h escaped)
after_last-append (c ∷ x) y t h escaped =
    rw (cons-append c x y, after_last-append x y t h (is_char 92 c)) refl

-- behind a space and a quote
opened-after_last :
    (e : String) → NoBare e → (escaped : Bool) → after_last escaped (" " ∷ "\"" ∷ e) ≡ some e
unfolding after_last NoBare
opened-after_last e h escaped = rw (h false) refl

-- the last bare quote divides a text in one way
divided :
    (x y e f : String)
    → NoBare e
    → NoBare f
    → x +s (" " ∷ "\"" ∷ e) ≡ y +s (" " ∷ "\"" ∷ f)
    → (x ≡ y) × (e ≡ f)
divided x y e f he hf same =
    let left = after_last-append x (" " ∷ "\"" ∷ e) e (opened-after_last e he) false in
    let right = after_last-append y (" " ∷ "\"" ∷ f) f (opened-after_last f hf) false in
    let tails : e ≡ f = some_inj (sym left ∙ ap (after_last false) same ∙ right) in
    (append_cancel_right x y (" " ∷ "\"" ∷ f) (rw tails at same), tails)
  where
    some_inj : {a b : String} → some a ≡ some b → a ≡ b
    some_inj h = cc

quote-arguments : quote "arguments" ≡ "\"arguments\""
unfolding quote escape_char
quote-arguments = refl

quote-tool : quote "tool" ≡ "\"tool\""
unfolding quote escape_char
quote-tool = refl

quote-escape : (s : String) → quote s ≡ "\"" +s (escape s +s "\"")
unfolding quote
quote-escape s = refl

colon-append : (s : String) → ": " +s s ≡ ":" ∷ " " ∷ s
colon-append s = rw (cons-append ":" " " s, cons-append " " [] s, nil-append s) refl

one-append : (c : Char) (s : String) → (c ∷ []) +s s ≡ c ∷ s
one-append c s = rw (cons-append c [] s, nil-append s) refl

quote-append : (s : String) → "\"" +s s ≡ "\"" ∷ s
quote-append s = rw (cons-append "\"" [] s, nil-append s) refl

-- the text of an action, with the tool's name and the text of the arguments in their places
shown :
    (tool : String) (arguments : Json)
    → dumps (obj (field "tool" (str tool) (field "arguments" arguments end)))
      ≡ "{"
        +s "\"arguments\""
        +s ": "
        +s ((dumps arguments +s ", " +s "\"tool\"" +s ":" ∷ []) +s " " ∷ "\"" ∷ escape tool)
        +s "\""
        +s "}"
unfolding dumps join_with show_member
shown tool arguments = simp (
  quote-arguments,
  quote-tool,
  quote-escape,
  append_assoc,
  cons-append,
  nil-append,
  colon-append,
  quote-append,
  one-append ":",
)

-- One canonical text of two actions has the same name of the tool, as it is written, and the same
-- text of the arguments.
pub shown_inj :
    (tool other : String) (arguments others : Json)
    → dumps (obj (field "tool" (str tool) (field "arguments" arguments end)))
      ≡ dumps (obj (field "tool" (str other) (field "arguments" others end)))
    → (quote tool ≡ quote other) × (dumps arguments ≡ dumps others)
unfolding quote
shown_inj tool other arguments others same =
    let whole = sym (shown tool arguments) ∙ same ∙ shown other others in
    let middle =
      append_cancel_left ": " _ _
        (append_cancel_left "\"arguments\"" _ _ (append_cancel_left "{" _ _ whole)) in
    let inner = append_cancel_right _ _ ("\"" +s "}") middle in
    let both =
      divided _ _ (escape tool) (escape other) (escape-NoBare tool) (escape-NoBare other) inner in
    (
      ap (λ e. "\"" +s (e +s "\"")) both.1,
      append_cancel_right (dumps arguments) (dumps others) (", " +s ("\"tool\"" +s (":" ∷ [])))
          both.0,
    )
