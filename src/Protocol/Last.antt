-- ===== src/Protocol/Last.antt =====
-- The object that `_last_json_object` of aegiscode/protocol/parser.py keeps.
use aegis_code.Prelude.{
  ◌≡◌, refl, subst, ◌∙◌, ℕ, zero, suc, String, Char, true, false, List, [], ◌∷◌, Option, none, some,
  Bool-cases, inl, inr,
}
use aegis_code.Prelude.Text.{is_char}
use aegis_code.Json.{Json, null, bool, num, str, arr, obj, Fields}
use aegis_code.Protocol.{Decoder, dict_or, scan, last_json_object}

-- text[n:]
unfoldable pub drop_text : ℕ → String → String
drop_text n String.[] = String.[]
drop_text zero (String.◌∷◌ c s) = String.◌∷◌ c s
drop_text (suc n) (String.◌∷◌ c s) = drop_text n s

-- one more object, if the value is one
abbrev pub with_object : Json → List Fields → List Fields
with_object (obj fs) found = fs ∷ found
with_object _ found = found

-- the last of a list, or what there was before
unfoldable pub last_or : Option Fields → List Fields → Option Fields
last_or best [] = best
last_or best (fs ∷ found) = last_or (some fs) found

module _ (d : Decoder) where
  -- The top-level objects of a text, from left to right: a value that opens at a brace is passed as a
  -- whole, so that none of its parts is an object of the text.
  pub data TopLevel : String → List Fields → Type 0 where
    at_end : TopLevel String.[] []
    no_brace :
        (c : Char) (s : String) (found : List Fields)
        → is_char b'{' c ≡ false
        → TopLevel s found
        → TopLevel (String.◌∷◌ c s) found
    no_value :
        (c : Char) (s : String) (found : List Fields)
        → is_char b'{' c ≡ true
        → d.raw_decode (String.◌∷◌ c s) ≡ none
        → TopLevel s found
        → TopLevel (String.◌∷◌ c s) found
    whole :
        (c : Char) (s : String) (v : Json) (n : ℕ) (found : List Fields)
        → is_char b'{' c ≡ true
        → d.raw_decode (String.◌∷◌ c s) ≡ some (v, n)
        → TopLevel (drop_text n s) found
        → TopLevel (String.◌∷◌ c s) (with_object v found)

  drop_text-zero : (s : String) → drop_text 0 s ≡ s
  unfolding drop_text
  drop_text-zero String.[] = refl
  drop_text-zero (String.◌∷◌ c s) = refl

  last_or-object :
      (best : Option Fields) (v : Json) (found : List Fields)
      → last_or (dict_or best v) found ≡ last_or best (with_object v found)
  unfolding last_or
  last_or-object best null found = refl
  last_or-object best (bool b) found = refl
  last_or-object best (num n) found = refl
  last_or-object best (str t) found = refl
  last_or-object best (arr xs) found = refl
  last_or-object best (obj fs) found = refl

  -- what is passed is not looked at
  scan-drop_text :
      (skip : ℕ) (best : Option Fields) (text : String)
      → scan d skip best text ≡ scan d 0 best (drop_text skip text)
  unfolding scan drop_text
  scan-drop_text skip best String.[] = refl
  scan-drop_text zero best (String.◌∷◌ c s) = refl
  scan-drop_text (suc skip) best (String.◌∷◌ c s) = scan-drop_text skip best s

  scan-TopLevel :
      {text : String} {found : List Fields} (best : Option Fields)
      → TopLevel text found
      → scan d 0 best text ≡ last_or best found
  unfolding scan last_or
  scan-TopLevel best at_end = refl
  scan-TopLevel best (no_brace c s found other h) = rw other (scan-TopLevel best h)
  scan-TopLevel best (no_value c s found brace fails h) = rw (brace, fails) (scan-TopLevel best h)
  scan-TopLevel best (whole c s v n found brace reads h) =
      rw (brace, reads)
        (scan-drop_text n (dict_or best v) s
          ∙ scan-TopLevel (dict_or best v) h
          ∙ last_or-object best v found)

  at_brace :
      (c : Char) (s : String) (o : Option (Json × ℕ))
      → is_char b'{' c ≡ true
      → d.raw_decode (String.◌∷◌ c s) ≡ o
      → ((n : ℕ) → (found : List Fields) × TopLevel (drop_text n s) found)
      → (found : List Fields) × TopLevel (String.◌∷◌ c s) found
  at_brace c s none brace is rest =
      let (found, h) = rest 0 in (found, no_value c s found brace is (rw (drop_text-zero s) at h))
  at_brace c s (some (v, n)) brace is rest =
      let (found, h) = rest n in (with_object v found, whole c s v n found brace is h)

  top_level :
      (skip : ℕ) (text : String) → (found : List Fields) × TopLevel (drop_text skip text) found
  unfolding drop_text
  top_level skip String.[] = ([], at_end)
  top_level (suc skip) (String.◌∷◌ c s) = top_level skip s
  top_level zero (String.◌∷◌ c s) = elim (Bool-cases (is_char b'{' c)) [
    | inl brace ↦ at_brace c s _ brace refl (λ n. top_level n s)
    | inr other ↦
        let (found, h) = top_level 0 s in
        (found, no_brace c s found other (rw (drop_text-zero s) at h))
  ]

  -- Where there is no fence, the parser keeps the last of the text's top-level objects: every text
  -- has a list of them, in which a value that is decoded at a brace is passed as a whole, its parts
  -- being no candidates; the parser keeps the last of the list, and nothing if it is empty.
  pub last_json_object-TopLevel :
      (text : String)
      → ((found : List Fields) × TopLevel text found)
        × ((found : List Fields)
            → TopLevel text found
            → last_json_object d text ≡ last_or none found)
  unfolding last_json_object
  last_json_object-TopLevel text = (
    subst (λ t. (found : List Fields) × TopLevel t found) (drop_text-zero text) (top_level 0 text),
    λ found h. scan-TopLevel none h,
  )
