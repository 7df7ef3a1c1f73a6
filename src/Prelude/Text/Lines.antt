-- ===== src/Prelude/Text/Lines.antt =====
-- Python's `str.splitlines`, `str.strip`, `str.encode` and the order of texts, over native texts.
use Prim.Native.Nat.{ℕ, suc, ◌+◌, ◌/◌, ◌%◌}
use Prim.Native.Char.{Char, code}
use Prim.Native.String.{String, [], ◌∷◌}
use mathlib.Core.Path.{◌≡◌, refl, ◌∙◌}
use mathlib.Core.Bool.{Bool, true, false, ◌&&◌, ◌||◌}
use mathlib.Core.List.{List, ◌++◌}
use native.Mathlib.Omega.{arith}
use aegis_code.Prelude.Tests.{nat_eq, ltb, leb, if◌then◌else◌}
use aegis_code.Prelude.Lists.{any, length, length-append}
use aegis_code.Prelude.Text.{is_char, has_char, is_empty, text_length, onto_first}

-- str.isspace of one character
unfoldable pub is_white : Char → Bool
is_white c =
    let n = code c in
    (leb 9 n && leb n 13)
    || (leb 28 n && leb n 32)
    || nat_eq n 133
    || nat_eq n 160
    || nat_eq n 5760
    || (leb 8192 n && leb n 8202)
    || nat_eq n 8232
    || nat_eq n 8233
    || nat_eq n 8239
    || nat_eq n 8287
    || nat_eq n 12288

-- the characters that end a line
unfoldable pub is_break : Char → Bool
is_break c =
    let n = code c in
    (leb 10 n && leb n 13)
    || (leb 28 n && leb n 30)
    || nat_eq n 133
    || nat_eq n 8232
    || nat_eq n 8233

-- s.lstrip()
unfoldable pub lstrip : String → String
unfolding is_white
lstrip [] = []
lstrip (c ∷ s) = let rest = lstrip s in if is_white c then rest else c ∷ s

white_end : String → String
unfolding is_white
white_end [] = []
white_end (c ∷ s) = let rest = white_end s in if is_white c && is_empty rest then [] else c ∷ rest

-- s.strip()
unfoldable pub strip : String → String
unfolding lstrip white_end
strip s = white_end (lstrip s)

-- s.splitlines(); the lines of what follows, and whether a carriage return came before
unfoldable pub lines_from : Bool → String → List String
unfolding is_break
lines_from after_cr [] = List.[]
lines_from after_cr (c ∷ s) =
    let rest = lines_from (is_char 13 c) s in
    if after_cr && is_char 10 c
    then rest
    else if is_break c
    then List.◌∷◌ [] rest
    else onto_first c rest

unfoldable pub splitlines : String → List String
unfolding lines_from
splitlines s = lines_from false s

-- the bytes of one code point in UTF-8
pub encode_char : ℕ → List ℕ
encode_char n =
    if ltb n 128
    then List.◌∷◌ n List.[]
    else if ltb n 2048
    then List.◌∷◌ (192 + n / 64) (List.◌∷◌ (128 + n % 64) List.[])
    else if ltb n 65536
    then List.◌∷◌ (224 + n / 4096) (List.◌∷◌ (128 + n / 64 % 64) (List.◌∷◌ (128 + n % 64) List.[]))
    else List.◌∷◌ (240 + n / 262144) (
        List.◌∷◌ (128 + n / 4096 % 64)
          (List.◌∷◌ (128 + n / 64 % 64) (List.◌∷◌ (128 + n % 64) List.[])))

-- s.encode(); a text holds no lone surrogates
unfoldable pub encode : String → List ℕ
unfolding encode_char
encode [] = List.[]
encode (c ∷ s) = encode_char (code c) ++ encode s

-- a <= b, by code points
unfoldable pub text_leb : String → String → Bool
text_leb [] t = true
text_leb (c ∷ s) [] = false
text_leb (c ∷ s) (d ∷ t) = ltb (code c) (code d) || (is_char (code d) c && text_leb s t)

insert_sorted : String → List String → List String
unfolding text_leb
insert_sorted s List.[] = List.◌∷◌ s List.[]
insert_sorted s (List.◌∷◌ t ts) =
    let rest = insert_sorted s ts in
    if text_leb s t then List.◌∷◌ s (List.◌∷◌ t ts) else List.◌∷◌ t rest

-- sorted(texts)
unfoldable pub sort : List String → List String
unfolding insert_sorted
sort List.[] = List.[]
sort (List.◌∷◌ t ts) = insert_sorted t (sort ts)

-- s[:n]
unfoldable pub take_text : ℕ → String → String
take_text ℕ.zero s = []
take_text (suc n) [] = []
take_text (suc n) (c ∷ s) = c ∷ take_text n s

pub take_text-length : (n : ℕ) (s : String) → leb (text_length (take_text n s)) n ≡ true
unfolding take_text text_length
take_text-length ℕ.zero s = refl
take_text-length (suc n) [] = ground arith
take_text-length (suc n) (c ∷ s) = ground (arith, take_text-length n s)

-- every code point takes a byte
pub text_length-le-encode : (s : String) → leb (text_length s) (length (encode s)) ≡ true
unfolding text_length encode encode_char
text_length-le-encode [] = refl
text_length-le-encode (c ∷ s) =
    ground (arith, text_length-le-encode s, length-append (encode_char (code c)) (encode s))

any-append_nat : (p : ℕ → Bool) (xs ys : List ℕ) → any p (xs ++ ys) ≡ (any p xs || any p ys)
any-append_nat p List.[] ys = refl
any-append_nat p (List.◌∷◌ x xs) ys = ground (arith, any-append_nat p xs ys)

zero-encode_char : (n : ℕ) → any (λ b. nat_eq b 0) (encode_char n) ≡ nat_eq n 0
unfolding encode_char
zero-encode_char n = ground arith

-- a byte of an encoded text is 0 where the text has the character 0
pub zero-encode : (s : String) → any (λ b. nat_eq b 0) (encode s) ≡ has_char 0 s
unfolding encode has_char
zero-encode [] = refl
zero-encode (c ∷ s) =
    any-append_nat (λ b. nat_eq b 0) (encode_char (code c)) (encode s)
    ∙ ground (arith, zero-encode s, zero-encode_char (code c))

lines_test :
    splitlines "a\r\nb\n\nc" ≡ List.◌∷◌ "a" (List.◌∷◌ "b" (List.◌∷◌ "" (List.◌∷◌ "c" List.[])))
unfolding splitlines
lines_test = refl
