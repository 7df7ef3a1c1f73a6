-- ===== src/Credentials/Masked.antt =====
-- What `CredentialStore.status` of aegiscode/credentials/store.py tells of a key.
use text.Mathlib.TextLemmas.{nil-append, cons-append}
use aegis_code.Prelude.{◌≡◌, refl, ◌<◌, suc, ◌+◌, ◌-◌, String, Char, true, false, some, arith, ltb}
use aegis_code.Prelude.Text.{◌+s◌, text_length, is_empty}
use aegis_code.Prelude.Text.Lines.{take_text}
use aegis_code.Credentials.{drop_text, last_chars, mask, status_of}
use Prim.Native.String.{[], ◌∷◌}

text_length-append : (m q : String) → text_length (m +s q) ≡ text_length m + text_length q
unfolding text_length
text_length-append [] q = rw (nil-append q) (omega arith)
text_length-append (c ∷ m) q = rw (cons-append c m q) (omega (arith, text_length-append m q))

drop_text-append : (m q : String) → drop_text (text_length m) (m +s q) ≡ q
unfolding drop_text text_length
drop_text-append [] q = nil-append q
drop_text-append (c ∷ m) q = rw (cons-append c m q) (drop_text-append m q)

-- a key by its first three characters, its middle and its end
abbrev pub key_of : Char → Char → Char → String → String → String
key_of a b c m q = a ∷ b ∷ c ∷ (m +s q)

last_chars-key :
    (a b c : Char) (m q : String) → text_length q ≡ 4 → last_chars 4 (key_of a b c m q) ≡ q
unfolding last_chars drop_text text_length
last_chars-key a b c m q four =
    let n : suc (suc (suc (text_length (m +s q)))) - 4 ≡ suc (suc (suc (text_length m))) =
      omega (arith, four, text_length-append m q) in
    rw n (drop_text-append m q)

mask-key :
    (a b c : Char) (m q : String)
    → text_length q ≡ 4
    → 0 < text_length m
    → mask (key_of a b c m q) ≡ (a ∷ b ∷ c ∷ []) +s "…" +s q
unfolding mask text_length take_text
mask-key a b c m q four some_middle =
    let long : ltb (suc (suc (suc (text_length (m +s q))))) 8 ≡ false =
      ground (arith, four, text_length-append m q) in
    rw (long, last_chars-key a b c m q four) refl

mask-short : (v : String) → text_length v < 8 → mask v ≡ "***"
unfolding mask
mask-short v short = let is : ltb (text_length v) 8 ≡ true = ground arith in rw is refl

-- The status of a key of eight characters or more does not depend on what stands between its first
-- three and its last four characters; that of a shorter one that is not empty tells no character.
pub status_of-hides :
    (a b c : Char) (m m' q : String)
    → text_length q ≡ 4
    → 0 < text_length m
    → 0 < text_length m'
    → (status_of (some (key_of a b c m q)) ≡ status_of (some (key_of a b c m' q)))
      × ((v : String)
          → is_empty v ≡ false
          → text_length v < 8
          → status_of (some v) ≡ record { configured = true; masked = some "***" })
unfolding status_of
status_of-hides a b c m m' q four h h' = (
  rw (mask-key a b c m q four h, mask-key a b c m' q four h') refl,
  λ v full short. rw (full, mask-short v short) refl,
)
