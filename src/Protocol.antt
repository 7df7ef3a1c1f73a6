-- ===== src/Protocol.antt =====
-- aegiscode/protocol/parser.py. The decoder of JSON and the texts of pydantic's errors are parameters;
-- the loop's own reading of a reply is here: the fence and the last object.
pub mod Fenced
pub mod Last
mod Samples
use aegis_code.Prelude.{
  ℕ, zero, suc, String, Bool, true, false, Char, Option, none, some, Result, ok, err, message,
  value_error, ◌>>=◌, ◌&&◌, if◌then◌else◌,
}
use aegis_code.Prelude.Text.{is_char}
use aegis_code.Prelude.Text.Lines.{lstrip}
use aegis_code.Json.{Json, null, bool, num, str, arr, obj, Fields, end, get}
use aegis_code.Governance.Rules.{strip_prefix}
use aegis_code.Governance.Decision.{Action}
use Prim.Native.String.{[], ◌∷◌}

pub record Decoder : Type 0 where
  -- json.loads
  pub loads : String → Result Json
  -- JSONDecoder.raw_decode from the head of a text: the value, and how many characters it takes
  -- behind the first one
  pub raw_decode : String → Option (Json × ℕ)
  -- the text of the error that Action(**data) raises
  pub invalid : Json → String

abbrev is_some : Option String → Bool
is_some none = false
is_some (some s) = true

abbrev onto : Char → Option String → Option String
onto c none = none
onto c (some s) = some (c ∷ s)

-- \s*```
unfoldable pub closes : String → Bool
unfolding strip_prefix lstrip
closes s = is_some (strip_prefix (lstrip s) "```")

-- .*?\} with \s*``` behind it: the shortest such text
unfoldable pub fence_body : String → Option String
unfolding closes
fence_body [] = none
fence_body (c ∷ s) =
    let rest = fence_body s in if is_char b'}' c && closes s then some (c ∷ []) else onto c rest

-- \{ and what follows
unfoldable pub braced : String → Option String
unfolding fence_body
braced [] = none
braced (c ∷ s) = if is_char b'{' c then onto c (fence_body s) else none

-- what the fence holds, if it opens at the head
unfoldable pub fence_at : String → Option String
unfolding braced strip_prefix lstrip
fence_at s = elim (strip_prefix s "```json") [ none ↦ none | some rest ↦ braced (lstrip rest) ]

abbrev pub or_else : Option String → Option String → Option String
or_else none other = other
or_else (some s) other = some s

-- _FENCE.search, and the group
unfoldable pub fence_search : String → Option String
unfolding fence_at
fence_search [] = none
fence_search (c ∷ s) = let rest = fence_search s in or_else (fence_at (c ∷ s)) rest

abbrev pub dict_or : Option Fields → Json → Option Fields
dict_or best (obj fs) = some fs
dict_or best v = best

-- the candidate after one character that may start an object, and how many characters to pass
abbrev pub step_best : Option Fields → Option (Json × ℕ) → Option Fields
step_best best none = best
step_best best (some (v, n)) = dict_or best v

abbrev pub step_skip : Option (Json × ℕ) → ℕ
step_skip none = 0
step_skip (some (v, n)) = n

tool_of : Option Json → Option String
tool_of (some (str t)) = some t
tool_of _ = none

arguments_of : Option Json → Option Fields
arguments_of none = some end
arguments_of (some (obj fs)) = some fs
arguments_of _ = none

is_optional_text : Option Json → Bool
is_optional_text none = true
is_optional_text (some null) = true
is_optional_text (some (str s)) = true
is_optional_text _ = false

made : String → Option String → Option Fields → Bool → Result Action
made error (some tool) (some arguments) true = ok (record { tool = tool; arguments = arguments })
made error _ _ _ = err (value_error error)

-- raise ActionParseError(str(e))
abbrev pub as_parse_error : Result Json → Result Json
as_parse_error (ok v) = ok v
as_parse_error (err e) = err (value_error (message e))

abbrev pub found_or_error : Option Fields → Result Json
found_or_error none = err (value_error "no JSON object found")
found_or_error (some fs) = ok (obj fs)

module _ (d : Decoder) where
  abbrev pub decoded_at : Char → String → Option (Json × ℕ)
  decoded_at c s = if is_char b'{' c then d.raw_decode (c ∷ s) else none

  -- the `while` of _last_json_object: `skip` characters belong to an object that was read
  unfoldable pub scan : ℕ → Option Fields → String → Option Fields
  scan skip best [] = best
  scan (suc skip) best (c ∷ s) = scan skip best s
  scan zero best (c ∷ s) = scan (step_skip (decoded_at c s)) (step_best best (decoded_at c s)) s

  -- _last_json_object
  unfoldable pub last_json_object : String → Option Fields
  unfolding scan
  last_json_object text = scan 0 none text

  -- Action(**data); the two texts that are optional are read by no modelled code
  unfoldable pub action_of : Json → Result Action
  unfolding tool_of arguments_of is_optional_text made get
  action_of (obj fs) =
      made (d.invalid (obj fs)) (tool_of (get "tool" fs)) (arguments_of (get "arguments" fs))
        (is_optional_text (get "thought" fs) && is_optional_text (get "expectation" fs))
  action_of v = err (value_error (d.invalid v))

  unfoldable pub data_of : Option String → String → Result Json
  unfolding last_json_object
  data_of (some group) text = as_parse_error (d.loads group)
  data_of none text = found_or_error (last_json_object text)

  -- parse_action
  unfoldable pub parse_action : String → Result Action
  unfolding data_of fence_search action_of
  parse_action text = data_of (fence_search text) text >>= action_of
