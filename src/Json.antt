-- ===== src/Json.antt =====
-- The values of a parsed JSON text, which the program keeps as `dict` and passes between its parts.
-- Integers are natural numbers; floats and negative numbers are left out, since no modelled code
-- looks into them. An object is kept in the order of its keys' insertion.
pub mod Dumps
use aegis_code.Prelude.{ℕ, String, Bool, true, false, Option, none, some, ◌==◌, if◌then◌else◌}
use aegis_code.Prelude.Text.{◌+s◌, contains, is_empty}
use aegis_code.Prelude.Text.Repr.{repr, decimal}
use aegis_code.Prelude.{Result, ok, err, type_error, ◌||◌}

mutual
  pub data Json : Type 0 where
    null : Json
    bool : Bool → Json
    num : ℕ → Json
    str : String → Json
    arr : Items → Json
    obj : Fields → Json

  pub data Items : Type 0 where
    nil : Items
    cons : Json → Items → Items

  pub data Fields : Type 0 where
    end : Fields
    field : String → Json → Fields → Fields

-- d.get(k)
unfoldable pub get : String → Fields → Option Json
get k end = none
get k (field j v fs) = if j == k then some v else get k fs

-- k in d
unfoldable pub has_key : String → Fields → Bool
has_key k end = false
has_key k (field j v fs) = j == k || has_key k fs

-- d.get(k, default)
abbrev pub get_or : String → Json → Fields → Json
unfolding get
get_or k d fs = elim (get k fs) [ none ↦ d | some v ↦ v ]

-- d[k] = v
unfoldable pub put : String → Json → Fields → Fields
put k v end = field k v end
put k v (field j w fs) = if j == k then field j v fs else field j w (put k v fs)

-- type(value).__name__
unfoldable pub type_name : Json → String
type_name null = "NoneType"
type_name (bool b) = "bool"
type_name (num n) = "int"
type_name (str s) = "str"
type_name (arr xs) = "list"
type_name (obj fs) = "dict"

-- s in xs, for a text
has_text : String → Items → Bool
has_text s nil = false
has_text s (cons (str t) xs) = t == s || has_text s xs
has_text s (cons _ xs) = has_text s xs

-- `token in value`
unfoldable pub is_in : String → Json → Result Bool
unfolding has_text has_key contains type_name
is_in s (str t) = ok (contains s t)
is_in s (arr xs) = ok (has_text s xs)
is_in s (obj fs) = ok (has_key s fs)
is_in s v = err (type_error ("argument of type '" +s type_name v +s "' is not iterable"))

-- not value
unfoldable pub is_falsy : Json → Bool
is_falsy null = true
is_falsy (bool true) = false
is_falsy (bool false) = true
is_falsy (num ℕ.zero) = true
is_falsy (num _) = false
is_falsy (str s) = is_empty s
is_falsy (arr nil) = true
is_falsy (arr (cons x xs)) = false
is_falsy (obj end) = true
is_falsy (obj (field k v fs)) = false

mutual
  repr_json_in : Json → String
  repr_json_in null = "None"
  repr_json_in (bool true) = "True"
  repr_json_in (bool false) = "False"
  repr_json_in (num n) = decimal n
  repr_json_in (str s) = repr s
  repr_json_in (arr xs) = "[" +s repr_items xs +s "]"
  repr_json_in (obj fs) = "{" +s repr_fields fs +s "}"

  repr_items : Items → String
  repr_items nil = ""
  repr_items (cons x nil) = repr_json_in x
  repr_items (cons x (cons y xs)) = repr_json_in x +s ", " +s repr_items (cons y xs)

  repr_fields : Fields → String
  repr_fields end = ""
  repr_fields (field k v end) = repr k +s ": " +s repr_json_in v
  repr_fields (field k v (field j w fs)) =
      repr k +s ": " +s repr_json_in v +s ", " +s repr_fields (field j w fs)

-- repr(value)
unfoldable pub repr_json : Json → String
unfolding repr_json_in repr decimal
repr_json v = repr_json_in v
