-- ===== src/Security/Below.antt =====
-- The matchers of aegiscode/security/redactor.py on a text of which only a part up to a bracket, or
-- up to its end, is known to stand at the head of another.
use aegis_code.Prelude.{
  ◌≡◌, refl, inl, inr, ℕ, zero, suc, String, Char, code, Bool, true, false, Option, none, some,
  arith, ◌||◌, Bool-cases, subst, nat_eq,
}
use aegis_code.Prelude.Text.{is_char, has_char}
use aegis_code.Security.{
  key_char, aws_char, value_char, at_least, same_letter, behind_word, behind, behind_white,
  behind_quote, behind_keyword, behind_equals, then_some, or_next, Pattern, openai_key, aws_key,
  generic_assignment, matches,
}
use aegis_code.Prelude.Text.Lines.{is_white}
use Prim.Native.String.{[], ◌∷◌}

pub data Below : String → String → Type 0 where
  cut : (o s : String) → Below ("[" ∷ o) s
  stop : (s : String) → Below [] s
  same : (c : Char) {o s : String} → Below o s → Below (c ∷ o) (c ∷ s)

some_inj : (a b : String) → some a ≡ some b → b ≡ a
some_inj a b e = cc

-- what a matcher leaves of the two texts
abbrev Follows : Option String → Option String → Type 0
Follows none r' = Unit
Follows (some r) r' = (t : String) × (r' ≡ some t) × Below r t

at_least-Below :
    (p : Char → Bool)
    → p "[" ≡ false
    → (n : ℕ) {o s : String} → Below o s
    → at_least p n o ≡ true
    → at_least p n s ≡ true
unfolding at_least
at_least-Below p free zero b h = refl
at_least-Below p free (suc n) (cut o s) h = absurd (ground arith)
at_least-Below p free (suc n) (stop s) h = absurd (ground arith)
at_least-Below p free (suc n) (same c b) h = ground (arith, at_least-Below p free n b)

behind-Below :
    (word : String)
    → has_char b'[' word ≡ false
    → {o s : String} → Below o s
    → Follows (behind word o) (behind word s)
unfolding behind has_char
behind-Below [] free b = (_, refl, b)
behind-Below (k ∷ ks) free (cut o s) =
    let other : nat_eq 91 (code k) ≡ false = ground arith in rw other tt
behind-Below (k ∷ ks) free (stop s) = tt
behind-Below (k ∷ ks) free (same c b) = elim (Bool-cases (is_char (code k) c)) [
  | inl hit ↦ rw hit (behind-Below ks (ground arith) b)
  | inr miss ↦ rw miss tt
]

-- whether a letter of a keyword is also written by a bracket
bracketed : String → Bool
bracketed [] = false
bracketed (k ∷ ks) = same_letter (code k) "[" || bracketed ks

behind_word-Below :
    (word : String)
    → bracketed word ≡ false
    → {o s : String} → Below o s
    → Follows (behind_word word o) (behind_word word s)
unfolding behind_word bracketed
behind_word-Below [] free b = (_, refl, b)
behind_word-Below (k ∷ ks) free (cut o s) =
    let other : same_letter (code k) "[" ≡ false = ground arith in rw other tt
behind_word-Below (k ∷ ks) free (stop s) = tt
behind_word-Below (k ∷ ks) free (same c b) = elim (Bool-cases (same_letter (code k) c)) [
  | inl hit ↦ rw hit (behind_word-Below ks (ground arith) b)
  | inr miss ↦ rw miss tt
]

behind_white-Below : {o s : String} → Below o s → Below (behind_white o) (behind_white s)
unfolding behind_white is_white
behind_white-Below (cut o s) = cut o _
behind_white-Below (stop s) = stop _
behind_white-Below (same c b) = elim (Bool-cases (is_white c)) [
  | inl white ↦ rw white (behind_white-Below b)
  | inr other ↦ rw other (same c b)
]

behind_quote-Below : {o s : String} → Below o s → Below (behind_quote o) (behind_quote s)
unfolding behind_quote
behind_quote-Below (cut o s) = cut o _
behind_quote-Below (stop s) = stop _
behind_quote-Below (same c b) = elim (Bool-cases (is_char 39 c || is_char 34 c)) [
  | inl quote ↦ rw quote b
  | inr other ↦ rw other (same c b)
]

then-Follows :
    (f : String → Option String)
    → ((o s : String) → Below o s → Follows (f o) (f s))
    → (r r' : Option String) → Follows r r'
    → Follows (then_some r f none) (then_some r' f none)
then-Follows f step none r' b = tt
then-Follows f step (some r) none (t, e, b) = absurd (ground arith)
then-Follows f step (some r) (some r') (t, e, b) = step r r' (subst (Below r) (some_inj r' t e) b)

equals-Below : {o s : String} → Below o s → Follows (behind_equals o) (behind_equals s)
unfolding behind_equals has_char
equals-Below b =
    then-Follows (λ r. some (behind_quote (behind_white r)))
      (λ o s b'. (_, refl, behind_quote-Below (behind_white-Below b'))) _ _
      (behind-Below "=" refl (behind_white-Below b))

-- two alternatives of which only one can match
or-Follows :
    (a b a' b' : Option String)
    → Follows a a'
    → Follows b b'
    → ((t : String) → b' ≡ some t → a' ≡ none)
    → Follows (or_next a b) (or_next a' b')
or-Follows (some r) b a' b' (t, e, below) g apart = (t, rw e refl, below)
or-Follows none none a' b' f g apart = tt
or-Follows none (some r) a' b' f (t, e, below) apart = (t, rw (apart t e) e, below)

or-apart :
    (a b c : Option String)
    → ((t : String) → b ≡ some t → a ≡ none)
    → ((t : String) → c ≡ some t → a ≡ none)
    → (t : String) → or_next b c ≡ some t
    → a ≡ none
or-apart a (some r) c hb hc t h = hb r refl
or-apart a none c hb hc t h = hc t h

first_letter :
    (k : Char) (ks s r : String)
    → behind_word (k ∷ ks) s ≡ some r
    → (c : Char) × (t : String) × (s ≡ c ∷ t) × (same_letter (code k) c ≡ true)
unfolding behind_word
first_letter k ks [] r h = absurd (ground arith)
first_letter k ks (c ∷ s) r h = (c, s, refl, ground arith)

other_letter :
    (j k : Char) (js ks s r : String)
    → ((c : Char) → same_letter (code k) c ≡ true → same_letter (code j) c ≡ false)
    → behind_word (k ∷ ks) s ≡ some r
    → behind_word (j ∷ js) s ≡ none
unfolding behind_word
other_letter j k js ks s r apart h =
    let (c, t, is, hit) = first_letter k ks s r h in rw (is, apart c hit) refl

-- the keywords begin with different letters
keyword-Below : {o s : String} → Below o s → Follows (behind_keyword o) (behind_keyword s)
unfolding behind_keyword same_letter bracketed
keyword-Below {o} {s} b =
    or-Follows _ _ _ _ (behind_word-Below "KEY" refl b)
      (or-Follows _ _ _ _ (behind_word-Below "TOKEN" refl b)
        (or-Follows _ _ _ _ (behind_word-Below "PASSWORD" refl b)
          (behind_word-Below "SECRET" refl b)
          (λ t h. other_letter "P" "S" "ASSWORD" "ECRET" s t (λ c e. ground arith) h))
        (or-apart _ _ _ (λ t h. other_letter "T" "P" "OKEN" "ASSWORD" s t (λ c e. ground arith) h)
          (λ t h. other_letter "T" "S" "OKEN" "ECRET" s t (λ c e. ground arith) h)))
      (or-apart _ _ _ (λ t h. other_letter "K" "T" "EY" "OKEN" s t (λ c e. ground arith) h)
        (or-apart _ _ _ (λ t h. other_letter "K" "P" "EY" "ASSWORD" s t (λ c e. ground arith) h)
          (λ t h. other_letter "K" "S" "EY" "ECRET" s t (λ c e. ground arith) h)))

then-matches :
    (p : Char → Bool) (n : ℕ)
    → p "[" ≡ false
    → (r r' : Option String) → Follows r r'
    → then_some r (at_least p n) false ≡ true
    → then_some r' (at_least p n) false ≡ true
then-matches p n free none r' f h = absurd (ground arith)
then-matches p n free (some r) none (t, e, b) h = absurd (ground arith)
then-matches p n free (some r) (some r') (t, e, b) h =
    at_least-Below p free n (subst (Below r) (some_inj r' t e) b) h

-- What matches such a part matches the other text.
pub matches-Below :
    (p : Pattern) {o s : String} → Below o s → matches p o ≡ true → matches p s ≡ true
unfolding matches has_char
matches-Below openai_key b h = then-matches key_char 20 refl _ _ (behind-Below "sk-" refl b) h
matches-Below aws_key b h = then-matches aws_char 16 refl _ _ (behind-Below "AKIA" refl b) h
matches-Below generic_assignment b h = from_keyword _ _ (keyword-Below b) h
  where
    from_keyword :
        (r r' : Option String)
        → Follows r r'
        → then_some r (λ t. then_some (behind_equals t) (at_least value_char 16) false) false ≡ true
        → then_some r' (λ t. then_some (behind_equals t) (at_least value_char 16) false) false
          ≡ true
    from_keyword none r' f h = absurd (ground arith)
    from_keyword (some r) none (t, e, b) h = absurd (ground arith)
    from_keyword (some r) (some r') (t, e, b) h =
        then-matches value_char 16 refl _ _ (equals-Below (subst (Below r) (some_inj r' t e) b)) h
