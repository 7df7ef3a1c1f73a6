-- ===== src/Glob.antt =====
-- Python's `fnmatch.fnmatch` on POSIX: a pattern is compiled to items, and the whole name has to
-- match them.
use aegis_code.Prelude.{
  ℕ, zero, suc, String, code, Bool, true, false, not, ◌&&◌, List, [], ◌∷◌, Option, none, some, leb,
  nat_eq, any, if◌then◌else◌, ◌≡◌, refl,
}

pub data Item : Type 0 where
  star any_char : Item
  lit : ℕ → Item
  class : Bool → List (ℕ × ℕ) → Item

-- the code points of a text
abbrev pub codes : String → List ℕ
codes String.[] = []
codes (String.◌∷◌ c s) = code c ∷ codes s

-- the characters and ranges between the brackets; `a-b` is a range wherever `b` is there
spans : List ℕ → List (ℕ × ℕ)
spans [] = []
spans (a ∷ []) = (a, a) ∷ []
spans (a ∷ d ∷ []) = (a, a) ∷ (d, d) ∷ []
spans (a ∷ d ∷ b ∷ rest) = elim (nat_eq d b'-') [
  | true ↦ (a, b) ∷ spans rest
  | false ↦ (a, a) ∷ spans (d ∷ b ∷ rest)
]

-- what stands before the first `]`, and behind it
until_bracket : List ℕ → Option (List ℕ × List ℕ)
until_bracket [] = none
until_bracket (c ∷ cs) =
    let rest = until_bracket cs in
    if nat_eq c b']'
    then some ([], cs)
    else elim rest [ none ↦ none | some (seq, tail) ↦ some (c ∷ seq, tail) ]

-- a `]` in the first place belongs to the class
class_body : List ℕ → Option (List ℕ × List ℕ)
unfolding until_bracket
class_body [] = none
class_body (c ∷ cs) =
    if nat_eq c b']'
    then elim (until_bracket cs) [ none ↦ none | some (seq, tail) ↦ some (c ∷ seq, tail) ]
    else until_bracket (c ∷ cs)

negated : List ℕ → Bool × List ℕ
negated [] = (false, [])
negated (c ∷ cs) = if nat_eq c b'!' then (true, cs) else (false, c ∷ cs)

-- behind a `[`: the class and what follows it, or the bracket itself
bracket : List ℕ → Item × List ℕ
unfolding class_body negated spans
bracket cs =
    let (neg, body) = negated cs in
    elim (class_body body) [
      | none ↦ (lit b'[', cs)
      | some (seq, tail) ↦ (class neg (spans seq), tail)
    ]

next_item : ℕ → List ℕ → Item × List ℕ
unfolding bracket
next_item c cs =
    if nat_eq c b'*'
    then (star, cs)
    else if nat_eq c b'?'
    then (any_char, cs)
    else if nat_eq c b'['
    then bracket cs
    else (lit c, cs)

-- each round takes a character at least, so the length of the pattern is enough fuel
compile : ℕ → List ℕ → List Item
compile zero cs = []
compile (suc f) [] = []
compile (suc f) (c ∷ cs) = let (item, rest) = next_item c cs in item ∷ compile f rest

in_span : ℕ → ℕ × ℕ → Bool
in_span c (lo, hi) = leb lo c && leb c hi

accepts : Item → ℕ → Bool
unfolding in_span
accepts star c = true
accepts any_char c = true
accepts (lit x) c = nat_eq x c
accepts (class neg ranges) c = if any (in_span c) ranges then not neg else neg

matches : List Item → List ℕ → Bool
matches [] [] = true
matches [] (c ∷ s) = false
matches (star ∷ items) [] = matches items []
matches (star ∷ items) (c ∷ s) = elim (matches items (c ∷ s)) [
  | true ↦ true
  | false ↦ matches (star ∷ items) s
]
matches (item ∷ items) [] = false
matches (item ∷ items) (c ∷ s) = elim (accepts item c) [ true ↦ matches items s | false ↦ false ]

abbrev length_of : List ℕ → ℕ
length_of [] = 0
length_of (c ∷ cs) = suc (length_of cs)

-- fnmatch.fnmatch(name, pattern)
unfoldable pub fnmatch : String → String → Bool
unfolding compile next_item matches accepts
fnmatch name pattern = let p = codes pattern in matches (compile (length_of p) p) (codes name)

fnmatch_tests :
    (fnmatch "key.pem" "*.pem" ≡ true)
    × (fnmatch "added-credentials-x" "*credentials*" ≡ true)
    × (fnmatch "v7" "v[!a-c]" ≡ true)
    × (fnmatch ".envx" ".env" ≡ false)
unfolding fnmatch
fnmatch_tests = (refl, refl, refl, refl)
