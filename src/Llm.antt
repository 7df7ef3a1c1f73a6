-- ===== src/Llm.antt =====
-- aegiscode/llm: the scripted client and the two adapters. The request over HTTP is a parameter, from
-- an address, headers and a body to the JSON that is answered.
use aegis_code.Prelude.{
  Error, refl, ◌≡◌, String, Bool, true, false, not, List, [], ◌∷◌, ◌++◌, Option, none, some, Result,
  ok, err, key_error, type_error, index_error, runtime_error, attribute_error, ℕ, ◌+◌, ◌>>=◌, ◌==◌,
  if◌then◌else◌, ◌≡◌, refl,
}
use aegis_code.Prelude.Text.{◌+s◌, is_empty, join_with}
use aegis_code.Prelude.Text.Repr.{repr, decimal}
use aegis_code.Json.{
  Json, null, num, str, arr, obj, Items, nil, cons, Fields, end, field, get, get_or, type_name,
}
use aegis_code.Context.{Message}

-- `MockLLM`: what is still to be answered, and the messages received
pub record Mock : Type 0 where
  pub queue : List String
  pub received : List (List Message)

abbrev pub scripted : List String → Mock
scripted responses = record { queue = responses; received = [] }

next_response : List String → Result String × List String
next_response [] = (err (runtime_error "no scripted responses left"), [])
next_response (r ∷ rs) = (ok r, rs)

-- MockLLM.complete
pub complete_mock : List Message → Mock → Result String × Mock
unfolding next_response
complete_mock messages m =
    let (r, queue) = next_response m.queue in
    (r, record { queue = queue; received = m.received ++ messages ∷ [] })

pub complete_mock-empty :
    (messages : List Message) → (e : Error) × ((complete_mock messages (scripted [])).0 ≡ err e)
unfolding complete_mock next_response
complete_mock-empty messages = (_, refl)

-- value[key] and value[0] on parsed JSON
pub at_key : String → Json → Result Json
unfolding get repr type_name
at_key k (obj fs) = elim (get k fs) [ none ↦ err (key_error (repr k)) | some v ↦ ok v ]
at_key k (arr xs) = err (type_error "list indices must be integers or slices, not str")
at_key k (str s) = err (type_error "string indices must be integers, not 'str'")
at_key k v = err (type_error ("'" +s type_name v +s "' object is not subscriptable"))

pub first_item : Json → Result Json
unfolding type_name
first_item (arr nil) = err (index_error "list index out of range")
first_item (arr (cons x xs)) = ok x
first_item (obj fs) = err (key_error "0")
first_item (str s) =
    if is_empty s then err (index_error "string index out of range") else ok (str s)
first_item v = err (type_error ("'" +s type_name v +s "' object is not subscriptable"))

abbrev pub Post : Type 0
Post = String → Fields → Fields → Result Json

message_items : List Message → Items
message_items [] = nil
message_items (m ∷ ms) =
    cons (obj (field "role" (str m.role) (field "content" (str m.content) end))) (message_items ms)

-- base_url or the default one
abbrev url_or : Option String → String → String
url_or none default = default
url_or (some url) default = if is_empty url then default else url

-- the request of OpenAIAdapter.complete
pub openai_body : String → List Message → Fields
unfolding message_items
openai_body model messages =
    field "model" (str model) (field "messages" (arr (message_items messages)) end)

-- OpenAIAdapter.complete
pub complete_openai : Post → String → String → Option String → List Message → Result Json
unfolding openai_body at_key first_item
complete_openai post model api_key base_url messages =
    post (url_or base_url "https://api.openai.com/v1" +s "/chat/completions")
      (field "Authorization" (str ("Bearer " +s api_key)) end) (openai_body model messages)
    >>= λ r. at_key "choices" r >>= λ choices. first_item choices >>= λ choice.
        at_key "message" choice >>= λ message. at_key "content" message

pub by_role : Bool → List Message → List Message
by_role system [] = []
by_role system (m ∷ ms) =
    let rest = by_role system ms in
    if (if m.role == "system" then system else not system) then m ∷ rest else rest

contents : List Message → List String
contents [] = []
contents (m ∷ ms) = m.content ∷ contents ms

-- the request of AnthropicAdapter.complete: the system messages apart, joined
pub anthropic_body : String → List Message → Fields
unfolding message_items by_role contents join_with
anthropic_body model messages = field "model" (str model) (
    field "max_tokens" (num 4096) (
      field "system" (str (join_with "\n" (contents (by_role true messages))))
        (field "messages" (arr (message_items (by_role false messages))) end)))

is_text_type : Json → Bool
is_text_type (str t) = t == "text"
is_text_type _ = false

-- b["text"] for the blocks of type "text"; a block that is no object has no `get`
block_texts : Items → Result (List Json)
unfolding at_key type_name is_text_type
block_texts nil = ok []
block_texts (cons (obj b) xs) =
    let rest = block_texts xs in
    if is_text_type (get_or "type" null b)
    then (at_key "text" (obj b) >>= λ v. rest >>= λ more. ok (v ∷ more))
    else rest
block_texts (cons v xs) =
    err (attribute_error ("'" +s type_name v +s "' object has no attribute 'get'"))

-- "".join of values, from place `i`
join_values : ℕ → List Json → Result String
unfolding type_name decimal
join_values i [] = ok ""
join_values i (str s ∷ vs) = join_values (i + 1) vs >>= λ more. ok (s +s more)
join_values i (v ∷ vs) = err (
    type_error
      ("sequence item " +s decimal i +s ": expected str instance, " +s type_name v +s " found"))

-- the blocks of a content; iterating over a mapping or a text gives texts, which have no `get`
content_text : Json → Result String
unfolding block_texts join_values type_name
content_text (arr xs) = block_texts xs >>= join_values 0
content_text (obj end) = ok ""
content_text (obj fs) = err (attribute_error "'str' object has no attribute 'get'")
content_text (str s) =
    if is_empty s then ok "" else err (attribute_error "'str' object has no attribute 'get'")
content_text v = err (type_error ("'" +s type_name v +s "' object is not iterable"))

-- AnthropicAdapter.complete
pub complete_anthropic : Post → String → String → Option String → List Message → Result String
unfolding anthropic_body at_key content_text
complete_anthropic post model api_key base_url messages =
    post (url_or base_url "https://api.anthropic.com" +s "/v1/messages")
      (field "x-api-key" (str api_key) (field "anthropic-version" (str "2023-06-01") end))
      (anthropic_body model messages)
    >>= λ r. at_key "content" r >>= content_text
