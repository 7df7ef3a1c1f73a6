-- ===== src/Protocol/Samples.antt =====
-- Replies and a decoder, at which the theorems on the parser are applied.
use aegis_code.Prelude.{
  ◌≡◌, refl, String, List, none, some, ok, err, value_error, ◌>>=◌, if◌then◌else◌, ◌==◌,
}
use aegis_code.Prelude.Text.{starts_with, has_char, ◌+s◌}
use aegis_code.Json.{obj, str, Fields, field, end, get}
use aegis_code.Protocol.{Decoder, last_json_object, scan, as_parse_error, action_of, parse_action}
use aegis_code.Protocol.Fenced.{opened, closed, parse_action-fenced}
use aegis_code.Protocol.Last.{TopLevel, last_or, last_json_object-TopLevel}
use Prim.Native.String.{◌∷◌}

abbrev finishing : String
finishing = "{\"tool\": \"finish\"}"

abbrev finish_fields : Fields
finish_fields = field "tool" (str "finish") end

-- reads the one object above
abbrev small : Decoder
small = record {
  loads =
      λ s. if s == finishing then ok (obj finish_fields) else err (value_error "Expecting value");
  raw_decode = λ s. if starts_with s finishing then some (obj finish_fields, 16) else none;
  invalid = λ v. "1 validation error for Action";
}

abbrev with_arguments : String
with_arguments = "{\"tool\": \"finish\", \"arguments\": {}}"

abbrev all_fields : Fields
all_fields = field "tool" (str "finish") (field "arguments" (obj end) end)

-- reads the object above, and the one inside it
abbrev nested : Decoder
nested = record small {
  raw_decode = λ s.
      if starts_with s with_arguments
      then some (obj all_fields, 34)
      else if starts_with s "{}"
      then some (obj end, 1)
      else none;
}

last_json_object-TopLevel_example :
    ((found : List Fields) × TopLevel nested ("done {x} " +s with_arguments) found)
    × ((found : List Fields)
        → TopLevel nested ("done {x} " +s with_arguments) found
        → last_json_object nested ("done {x} " +s with_arguments) ≡ last_or none found)
last_json_object-TopLevel_example = last_json_object-TopLevel nested ("done {x} " +s with_arguments)

-- the object inside is none of the text
the_outer : last_json_object nested ("done {x} " +s with_arguments) ≡ some all_fields
unfolding last_json_object starts_with
the_outer = refl

the_last : last_json_object small "done {x} {\"tool\": \"finish\"}" ≡ some finish_fields
unfolding last_json_object scan starts_with
the_last = refl

parse_action-fenced_example :
    parse_action small ("So: " +s opened ("\"tool\": \"finish\"" +s closed " or `rm`"))
    ≡ (as_parse_error (small.loads ("{" ∷ ("\"tool\": \"finish\"" +s "}"))) >>= action_of small)
unfolding has_char
parse_action-fenced_example =
    parse_action-fenced small "So: " "\"tool\": \"finish\"" " or `rm`" refl refl

the_action :
    parse_action small "So: ```json\n{\"tool\": \"finish\"}\n``` or `rm`"
    ≡ ok (record { tool = "finish"; arguments = end })
unfolding parse_action action_of get
the_action = refl
