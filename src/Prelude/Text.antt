-- ===== src/Prelude/Text.antt =====
-- Python's `str` methods and the `os.path` functions that walk a text and no file system, over
-- native texts. A text is a list of code points by its own `[]` and `∷`.
pub mod Laws
pub mod Lines
pub mod Repr
use Prim.Native.Nat.{ℕ, zero, suc}
use Prim.Native.Char.{Char, code}
use Prim.Native.String
use Prim.Native.String.{String, [], ◌∷◌}
use mathlib.Core.Bool.{Bool, true, false, not, ◌&&◌, ◌||◌}
use mathlib.Core.Option.{Option, none, some}
use mathlib.Core.List
use mathlib.Core.List.{List}
use text.Mathlib.Text.{◌==◌}
use aegis_code.Prelude.Tests.{nat_eq, if◌then◌else◌}

infixr 66 ◌+s◌
-- a + b
abbrev pub ◌+s◌ : String → String → String
a +s b = String.◌++◌ a b

abbrev pub is_char : ℕ → Char → Bool
is_char n c = nat_eq (code c) n

-- not s
abbrev pub is_empty : String → Bool
is_empty [] = true
is_empty (c ∷ s) = false

-- len(s)
unfoldable pub text_length : String → ℕ
text_length [] = 0
text_length (c ∷ s) = suc (text_length s)

-- s.startswith(p)
unfoldable pub starts_with : String → String → Bool
starts_with s [] = true
starts_with [] (d ∷ p) = false
starts_with (c ∷ s) (d ∷ p) = nat_eq (code c) (code d) && starts_with s p

-- p in s
unfoldable pub contains : String → String → Bool
unfolding starts_with
contains p [] = is_empty p
contains p (c ∷ s) = starts_with (c ∷ s) p || contains p s

-- c in s, for one character
unfoldable pub has_char : ℕ → String → Bool
has_char n [] = false
has_char n (c ∷ s) = is_char n c || has_char n s

-- s.endswith(c), for one character
unfoldable pub ends_with : ℕ → String → Bool
ends_with n [] = false
ends_with n (c ∷ []) = is_char n c
ends_with n (c ∷ d ∷ s) = ends_with n (d ∷ s)

-- puts a character before the first part; a split always has one
abbrev pub onto_first : Char → List String → List String
onto_first c List.[] = List.◌∷◌ (c ∷ []) List.[]
onto_first c (List.◌∷◌ part parts) = List.◌∷◌ (c ∷ part) parts

-- s.split(c), for one character
unfoldable pub split_on : ℕ → String → List String
split_on n [] = List.◌∷◌ [] List.[]
split_on n (c ∷ s) =
    let parts = split_on n s in if is_char n c then List.◌∷◌ [] parts else onto_first c parts

-- s.split(c, 1)[0]
unfoldable pub before : ℕ → String → String
before n [] = []
before n (c ∷ s) = let rest = before n s in if is_char n c then [] else c ∷ rest

-- s.split(c, 1)[1], where c is in s
unfoldable pub after : ℕ → String → String
after n [] = []
after n (c ∷ s) = if is_char n c then s else after n s

-- s.rstrip(c), for one character
unfoldable pub rstrip : ℕ → String → String
rstrip n [] = []
rstrip n (c ∷ s) = let rest = rstrip n s in if is_char n c && is_empty rest then [] else c ∷ rest

-- c.join(parts)
unfoldable pub join_with : String → List String → String
join_with sep List.[] = []
join_with sep (List.◌∷◌ p List.[]) = p
join_with sep (List.◌∷◌ p (List.◌∷◌ q ps)) = p +s sep +s join_with sep (List.◌∷◌ q ps)

-- x in xs
unfoldable pub mem_text : String → List String → Bool
mem_text x List.[] = false
mem_text x (List.◌∷◌ y ys) = y == x || mem_text x ys

-- os.path.isabs
unfoldable pub is_abs : String → Bool
is_abs [] = false
is_abs (c ∷ s) = is_char b'/' c

last_or : String → List String → String
last_or d List.[] = d
last_or d (List.◌∷◌ p ps) = last_or p ps

-- os.path.basename: what follows the last slash
unfoldable pub basename : String → String
unfolding last_or split_on
basename p = last_or [] (split_on b'/' p)

-- what stands up to the last slash, the slash included
unfoldable pub up_to_slash : String → String
unfolding has_char
up_to_slash [] = []
up_to_slash (c ∷ s) =
    let rest = up_to_slash s in
    if is_empty rest then (if is_char b'/' c then c ∷ [] else []) else c ∷ rest

-- os.path.dirname: trailing slashes go, unless there is nothing else
unfoldable pub dirname : String → String
unfolding up_to_slash rstrip
dirname p =
    let head = up_to_slash p in let bare = rstrip b'/' head in if is_empty bare then head else bare

-- os.path.join(a, b)
unfoldable pub join_path : String → String → String
unfolding is_abs ends_with
join_path a b =
    if is_abs b then b else if is_empty a || ends_with b'/' a then a +s b else a +s "/" +s b
