-- ===== src/Json/Dumps.antt =====
-- `json.dumps(value, sort_keys=True)`: the program's canonical text of an action or a payload.
pub mod Quoted
use Prim.Native.Nat.{Ordering}
use Prim.Native.String
use aegis_code.Prelude.{
  ℕ, ◌-◌, ◌/◌, ◌%◌, ◌+◌, String, Char, code, Bool, true, false, ◌&&◌, List, [], ◌∷◌, leb, ltb,
  nat_eq, if◌then◌else◌, ◌≡◌, refl, map,
}
use aegis_code.Prelude.Text.{◌+s◌, join_with}
use aegis_code.Prelude.Text.Repr.{digit, decimal}
use aegis_code.Json.{Json, null, bool, num, str, arr, obj, Items, nil, cons, Fields, end, field}

abbrev of_char : Char → String
of_char c = String.◌∷◌ c String.[]

-- \uXXXX of a number below 2^16
hex4 : ℕ → String
unfolding digit
hex4 n =
    "\\u"
    +s of_char (digit (n / 4096))
    +s of_char (digit (n / 256 % 16))
    +s of_char (digit (n / 16 % 16))
    +s of_char (digit (n % 16))

-- `ensure_ascii`: a code point past 2^16 is written as two surrogates
escape_wide : ℕ → String
unfolding hex4
escape_wide n =
    if ltb n 65536
    then hex4 n
    else hex4 (55296 + (n - 65536) / 1024) +s hex4 (56320 + (n - 65536) % 1024)

escape_char : Char → String
unfolding escape_wide
escape_char c =
    let n = code c in
    if nat_eq n 34
    then "\\\""
    else if nat_eq n 92
    then "\\\\"
    else if nat_eq n 10
    then "\\n"
    else if nat_eq n 13
    then "\\r"
    else if nat_eq n 9
    then "\\t"
    else if nat_eq n 12
    then "\\f"
    else if nat_eq n 8
    then "\\b"
    else if leb 32 n && leb n 126
    then of_char c
    else escape_wide n

escape : String → String
unfolding escape_char
escape String.[] = String.[]
escape (String.◌∷◌ c s) = escape_char c +s escape s

-- a text between quotes
unfoldable pub quote : String → String
unfolding escape
quote s = "\"" +s escape s +s "\""

is_before : String → String → Bool
is_before a b = elim (String.compare a b) [ Ordering.lt ↦ true | _ ↦ false ]

-- the members of an object in the order of their keys
insert_member : String → String → List (String × String) → List (String × String)
unfolding is_before
insert_member k v [] = (k, v) ∷ []
insert_member k v ((j, w) ∷ ms) =
    if is_before j k then (j, w) ∷ insert_member k v ms else (k, v) ∷ (j, w) ∷ ms

sort_members : List (String × String) → List (String × String)
unfolding insert_member
sort_members [] = []
sort_members ((k, v) ∷ ms) = insert_member k v (sort_members ms)

show_member : String × String → String
unfolding quote
show_member (k, v) = quote k +s ": " +s v

mutual
  unfolding quote decimal join_with sort_members show_member

  dumps_in : Json → String
  dumps_in null = "null"
  dumps_in (bool true) = "true"
  dumps_in (bool false) = "false"
  dumps_in (num n) = decimal n
  dumps_in (str s) = quote s
  dumps_in (arr xs) = "[" +s join_with ", " (dumps_items xs) +s "]"
  dumps_in (obj fs) =
      "{" +s join_with ", " (map show_member (sort_members (dumps_fields fs))) +s "}"

  dumps_items : Items → List String
  dumps_items nil = []
  dumps_items (cons x xs) = dumps_in x ∷ dumps_items xs

  dumps_fields : Fields → List (String × String)
  dumps_fields end = []
  dumps_fields (field k v fs) = (k, dumps_in v) ∷ dumps_fields fs

-- json.dumps(value, sort_keys=True)
unfoldable pub dumps : Json → String
unfolding dumps_in
dumps v = dumps_in v

dumps_test :
    dumps
      (obj (field "tool" (str "x\n") (field "arguments" (arr (cons (num 12) (cons null nil))) end)))
    ≡ "{\"arguments\": [12, null], \"tool\": \"x\\n\"}"
unfolding dumps
dumps_test = refl
