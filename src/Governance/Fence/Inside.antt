-- ===== src/Governance/Fence/Inside.antt =====
-- `os.path.commonpath` and the components of a path, for aegiscode/governance/path_fence.py.
use text.Mathlib.TextLemmas.{nil-append, cons-append}
use aegis_code.Prelude.{
  ◌≡◌, refl, ap, ◌∙◌, String, false, ◌||◌, List, [], ◌∷◌, ok, ◌⊎◌, arith, ◌==◌, All, Bool-cases,
  inl, inr,
}
use aegis_code.Prelude.Text.{◌+s◌, is_empty, has_char, is_abs, split_on, join_with}
use aegis_code.Governance.Fence.{keep_parts, components, common_prefix, commonpath}

-- A component: not empty, not `.`, and without a slash.
abbrev pub Proper : String → Type 0
Proper p = (has_char b'/' p ≡ false) × (is_empty p || p == "." ≡ false)

-- The first list begins the second.
abbrev pub Begins : List String → List String → Type 0
Begins [] ys = Unit
Begins (x ∷ xs) [] = ⊥
Begins (x ∷ xs) (y ∷ ys) = (x ≡ y) × Begins xs ys

-- "/" + t
slash-append : (t : String) → "/" +s t ≡ String.◌∷◌ "/" t
slash-append t = cons-append "/" "" t ∙ ap (String.◌∷◌ "/") (nil-append t)

split_on-NoSlash : (s : String) → All (λ p. has_char b'/' p ≡ false) (split_on b'/' s)
unfolding split_on has_char
split_on-NoSlash String.[] = (refl, tt)
split_on-NoSlash (String.◌∷◌ c s) = ground (arith, split_on-NoSlash s)

split_on-slash : (t : String) → split_on b'/' ("/" +s t) ≡ "" ∷ split_on b'/' t
unfolding split_on
split_on-slash t = rw slash-append refl

split_on-append :
    (p t : String) → has_char b'/' p ≡ false → split_on b'/' (p +s "/" +s t) ≡ p ∷ split_on b'/' t
unfolding split_on has_char
split_on-append String.[] t h = rw nil-append (split_on-slash t)
split_on-append (String.◌∷◌ c p) t h = rw cons-append (ground (arith, split_on-append p t))

split_on_self : (p : String) → has_char b'/' p ≡ false → split_on b'/' p ≡ p ∷ []
unfolding split_on has_char
split_on_self String.[] h = refl
split_on_self (String.◌∷◌ c p) h = ground (arith, split_on_self p)

keep_parts-Proper :
    (ps : List String) → All (λ p. has_char b'/' p ≡ false) ps → All Proper (keep_parts ps)
unfolding keep_parts
keep_parts-Proper [] h = tt
keep_parts-Proper (p ∷ ps) h = ground (arith, keep_parts-Proper ps h.1)

pub components-Proper : (p : String) → All Proper (components p)
unfolding components
components-Proper p = keep_parts-Proper (split_on b'/' p) (split_on-NoSlash p)

components-slash : (t : String) → components ("/" +s t) ≡ components t
unfolding components
components-slash t = rw split_on-slash refl

-- Splitting undoes joining.
components-join_with : (ps : List String) → All Proper ps → components (join_with "/" ps) ≡ ps
unfolding components join_with
components-join_with [] h = refl
components-join_with (p ∷ []) h = rw (split_on_self p h.0.0) (ground arith)
components-join_with (p ∷ q ∷ ps) h =
    rw (split_on-append p (join_with "/" (q ∷ ps)) h.0.0)
      (ground (arith, components-join_with (q ∷ ps)))

common_prefix-Proper : (xs ys : List String) → All Proper xs → All Proper (common_prefix xs ys)
unfolding common_prefix
common_prefix-Proper [] ys h = tt
common_prefix-Proper (x ∷ xs) [] h = tt
common_prefix-Proper (x ∷ xs) (y ∷ ys) h = ground (arith, common_prefix-Proper xs ys h.1)

common_prefix-Begins : (xs ys : List String) → Begins (common_prefix xs ys) xs
unfolding common_prefix
common_prefix-Begins [] ys = tt
common_prefix-Begins (x ∷ xs) [] = tt
common_prefix-Begins (x ∷ xs) (y ∷ ys) = ground (arith, common_prefix-Begins xs ys)

abbrev shared : String → String → String
shared a b = join_with "/" (common_prefix (components a) (components b))

commonpath-cases :
    (a b c : String) → commonpath a b ≡ ok c → (c ≡ "/" +s shared a b) ⊎ (c ≡ shared a b)
unfolding commonpath
commonpath-cases a b c h = elim (Bool-cases (is_abs a)) [
  | inl p ↦ inl (ground arith)
  | inr p ↦ inr (ground arith)
]

components-shared :
    (a b : String) → components (shared a b) ≡ common_prefix (components a) (components b)
components-shared a b =
    components-join_with (common_prefix (components a) (components b))
      (common_prefix-Proper (components a) (components b) (components-Proper a))

components-commonpath :
    (a b c : String)
    → commonpath a b ≡ ok c
    → components c ≡ common_prefix (components a) (components b)
components-commonpath a b c h = elim (commonpath-cases a b c h) [
  | inl e ↦ rw e (components-slash (shared a b) ∙ components-shared a b)
  | inr e ↦ rw e (components-shared a b)
]

-- If the common path of `a` and `b` is `b` itself, the components of `b` begin those of `a`.
pub commonpath-Begins :
    (a b : String) → commonpath a b ≡ ok b → Begins (components b) (components a)
commonpath-Begins a b h =
    rw (components-commonpath a b b h) (common_prefix-Begins (components a) (components b))
