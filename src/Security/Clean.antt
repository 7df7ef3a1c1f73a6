-- ===== src/Security/Clean.antt =====
-- What `redact` of aegiscode/security/redactor.py leaves of the credentials in a text.
use aegis_code.Prelude.{
  ◌≡◌, refl, ◌∙◌, inl, inr, ℕ, zero, suc, ◌-◌, String, false, arith, Bool-cases,
}
use aegis_code.Security.{
  Pattern, openai_key, aws_key, generic_assignment, matches, mark, span, substitute, finds,
  redact_keys,
}
use aegis_code.Security.Below.{Below, cut, stop, same, matches-Below}
use Prim.Native.String.{[], ◌∷◌}

substitute-Below : (p : Pattern) (s : String) → Below (substitute p zero s) s
unfolding substitute
substitute-Below p [] = stop []
substitute-Below p (c ∷ s) = elim (Bool-cases (matches p (c ∷ s))) [
  | inl hit ↦ rw hit (cut _ (c ∷ s))
  | inr miss ↦ rw miss (same c (substitute-Below p s))
]

finds-mark : (q : Pattern) (s : String) → finds q (mark s) ≡ finds q s
unfolding finds matches
finds-mark openai_key s = refl
finds-mark aws_key s = refl
finds-mark generic_assignment s = refl

pub finds-nil : (q : Pattern) → finds q [] ≡ false
unfolding finds matches
finds-nil openai_key = refl
finds-nil aws_key = refl
finds-nil generic_assignment = refl

-- no match on the whole text, no match on such a part of it
pub no_match-Below :
    (q : Pattern) (o s : String) → Below o s → matches q s ≡ false → matches q o ≡ false
no_match-Below q o s b miss = elim (Bool-cases (matches q o)) [
  | inl hit ↦ absurd (ground (arith, matches-Below q b hit))
  | inr free ↦ free
]

finds-substitute_self : (p : Pattern) (k : ℕ) (s : String) → finds p (substitute p k s) ≡ false
unfolding substitute finds
finds-substitute_self p k [] = finds-nil p
finds-substitute_self p (suc k) (c ∷ s) = finds-substitute_self p k s
finds-substitute_self p zero (c ∷ s) = elim (Bool-cases (matches p (c ∷ s))) [
  | inl hit ↦ rw hit (finds-mark p _ ∙ finds-substitute_self p (span p (c ∷ s) - 1) s)
  | inr miss ↦ rw miss (
      ground (
        arith,
        no_match-Below p (c ∷ substitute p zero s) (c ∷ s) (same c (substitute-Below p s)) miss,
        finds-substitute_self p zero s,
      ))
]

finds-substitute :
    (p q : Pattern) (k : ℕ) (s : String) → finds q s ≡ false → finds q (substitute p k s) ≡ false
unfolding substitute finds
finds-substitute p q k [] free = finds-nil q
finds-substitute p q (suc k) (c ∷ s) free = finds-substitute p q k s (ground arith)
finds-substitute p q zero (c ∷ s) free = elim (Bool-cases (matches p (c ∷ s))) [
  | inl hit ↦ rw hit (finds-mark q _ ∙ finds-substitute p q (span p (c ∷ s) - 1) s (ground arith))
  | inr miss ↦ rw miss (
      ground (
        arith,
        no_match-Below q (c ∷ substitute p zero s) (c ∷ s) (same c (substitute-Below p s)),
        finds-substitute p q zero s,
      ))
]

-- no pattern is found behind the three substitutions
pub finds-redact_keys : (q : Pattern) (s : String) → finds q (redact_keys s) ≡ false
unfolding redact_keys
finds-redact_keys openai_key s =
    finds-substitute generic_assignment openai_key zero
      (substitute aws_key zero (substitute openai_key zero s))
      (finds-substitute aws_key openai_key zero (substitute openai_key zero s)
        (finds-substitute_self openai_key zero s))
finds-redact_keys aws_key s =
    finds-substitute generic_assignment aws_key zero
      (substitute aws_key zero (substitute openai_key zero s))
      (finds-substitute_self aws_key zero (substitute openai_key zero s))
finds-redact_keys generic_assignment s =
    finds-substitute_self generic_assignment zero
      (substitute aws_key zero (substitute openai_key zero s))

substitute-of_free : (p : Pattern) (s : String) → finds p s ≡ false → substitute p zero s ≡ s
unfolding substitute finds
substitute-of_free p [] free = refl
substitute-of_free p (c ∷ s) free =
    let miss : matches p (c ∷ s) ≡ false = ground arith in
    rw (miss, substitute-of_free p s (ground arith)) refl

-- a text without a match stays as it is
pub redact_keys-of_free : (s : String) → ((q : Pattern) → finds q s ≡ false) → redact_keys s ≡ s
unfolding redact_keys
redact_keys-of_free s free =
    rw
      (
        substitute-of_free openai_key s (free openai_key),
        substitute-of_free aws_key s (free aws_key),
      )
      (substitute-of_free generic_assignment s (free generic_assignment))
