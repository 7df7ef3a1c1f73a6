-- ===== src/Prelude/Text/Repr.antt =====
-- Python's `repr` of a text and `str` of a number, as its format strings print them.
use Prim.Native.Nat.{ℕ, zero, suc, ◌/◌, ◌%◌, ◌+◌}
use Prim.Native.Char.{Char, code}
use Prim.Native.String.{String, [], ◌∷◌}
use native.Mathlib.Omega.{arith}
use mathlib.Core.Path.{◌≡◌, refl}
use mathlib.Core.Bool.{false, not, ◌&&◌, ◌||◌}
use aegis_code.Prelude.Tests.{nat_eq, ltb, if◌then◌else◌}
use aegis_code.Prelude.Text.{◌+s◌, has_char}

digit_in : String → ℕ → Char
digit_in [] n = "?"
digit_in (c ∷ s) zero = c
digit_in (c ∷ s) (suc n) = digit_in s n

unfoldable pub digit : ℕ → Char
unfolding digit_in
digit n = digit_in "0123456789abcdef" n

digit_in-bare :
    (s : String) (n : ℕ) → has_char 34 s ≡ false → nat_eq (code (digit_in s n)) 34 ≡ false
unfolding digit_in has_char
digit_in-bare [] n h = refl
digit_in-bare (c ∷ s) zero h = ground arith
digit_in-bare (c ∷ s) (suc n) h = digit_in-bare s n (ground arith)

-- no digit is a quote
pub digit-bare : (n : ℕ) → nat_eq (code (digit n)) 34 ≡ false
unfolding digit has_char
digit-bare n = digit_in-bare "0123456789abcdef" n refl

decimal_from : ℕ → ℕ → String → String
decimal_from zero n acc = acc
decimal_from (suc f) n acc =
    let more = decimal_from f (n / 10) (digit (n % 10) ∷ acc) in
    if ltb n 10 then digit n ∷ acc else more

-- str(n); a number has at most as many digits as its value and one more
unfoldable pub decimal : ℕ → String
unfolding decimal_from digit
decimal n = decimal_from (n + 1) n []

repr_char : ℕ → Char → String
unfolding digit
repr_char quote c =
    let n = code c in
    if nat_eq n quote || nat_eq n 92
    then "\\" +s c ∷ []
    else if nat_eq n 10
    then "\\n"
    else if nat_eq n 13
    then "\\r"
    else if nat_eq n 9
    then "\\t"
    else if ltb n 32 || nat_eq n 127
    then "\\x" +s digit (n / 16) ∷ digit (n % 16) ∷ []
    else c ∷ []

repr_chars : ℕ → String → String
repr_chars quote [] = []
repr_chars quote (c ∷ s) = repr_char quote c +s repr_chars quote s

-- repr(s). Code points above 127 are kept as they are, as Python keeps the printable ones.
unfoldable pub repr : String → String
unfolding repr_chars repr_char has_char
repr s =
    if has_char 39 s && not (has_char 34 s)
    then "\"" +s repr_chars 34 s +s "\""
    else "'" +s repr_chars 39 s +s "'"

repr_test : repr "a\nb'" ≡ "\"a\\nb'\""
unfolding repr
repr_test = refl

decimal_test : decimal 120 ≡ "120"
unfolding decimal
decimal_test = refl
