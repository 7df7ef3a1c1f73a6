-- ===== src/Credentials.antt =====
-- aegiscode/credentials/store.py over any backend: the layers of `get_key` and the masked `status`.
pub mod JsonFile
pub mod Masked
mod Samples
use aegis_code.Prelude.{
  ℕ, zero, suc, ◌-◌, String, Bool, true, false, not, ◌&&◌, List, [], ◌∷◌, Option, none, some,
  Result, ok, err, os_error, ◌>>=◌, ◌==◌, ltb, if◌then◌else◌,
}
use aegis_code.Prelude.Text.{◌+s◌, is_char, is_empty, starts_with, after, rstrip, text_length}
use aegis_code.Prelude.Text.Lines.{strip, take_text}

-- a backend over the world `W`; a value that is stored is a text
pub record Backend (W : Type 0) : Type 0 where
  pub get_password : String → String → W → Result (Option String)
  pub set_password : String → String → String → W → Result (Unit {0}) × W
  pub delete_password : String → String → W → Result (Unit {0}) × W

abbrev pub service : String
service = "aegiscode"

abbrev pub user : String
user = "llm_api_key"

-- the store; `read_lines` is what iterating over an opened file gives
pub record Store (W : Type 0) : Type 0 where
  pub backend : Backend W
  pub allow_dotenv : Bool
  pub env : List (String × String)
  pub dotenv_path : Option String
  pub read_lines : String → W → Result (List String)

lstrip_char : ℕ → String → String
lstrip_char n String.[] = String.[]
lstrip_char n (String.◌∷◌ c s) =
    let rest = lstrip_char n s in if is_char n c then rest else String.◌∷◌ c s

-- s.strip(c), for one character
pub strip_char : ℕ → String → String
unfolding lstrip_char rstrip
strip_char n s = rstrip n (lstrip_char n s)

-- the value of a line of the file
pub line_value : String → String
unfolding after strip strip_char
line_value line = strip_char 39 (strip_char 34 (strip (after b'=' line)))

-- the first line that sets the key
pub dotenv_value : List String → Option String
unfolding line_value starts_with
dotenv_value [] = none
dotenv_value (line ∷ lines) =
    let rest = dotenv_value lines in
    if starts_with line "OPENAI_API_KEY=" then some (line_value line) else rest

-- env.get(k)
pub lookup : String → List (String × String) → Option String
lookup k [] = none
lookup k ((j, v) ∷ rest) = if j == k then some v else lookup k rest

-- if v: return v
pub nonempty : Option String → Option String
nonempty none = none
nonempty (some s) = if is_empty s then none else some s

-- a layer, or the next one
abbrev pub or_layer : Option String → Option String → Option String
or_layer none next = next
or_layer (some v) next = some v

module _ {W : Type 0} (st : Store W) where
  -- set_key
  pub set_key : String → W → Result (Unit {0}) × W
  set_key value w = st.backend.set_password service user value w

  -- clear: whatever the backend raises is passed over
  pub clear : W → W
  clear w = (st.backend.delete_password service user w).1

  -- the first layer: whatever the backend raises counts as no value
  pub backend_layer : W → Option String
  unfolding nonempty
  backend_layer w = elim (st.backend.get_password service user w) [
    | ok v ↦ nonempty v
    | err e ↦ none
  ]

  -- the second layer; a file that cannot be opened is passed over
  dotenv_lines : Result (List String) → Result (Option String)
  unfolding dotenv_value
  dotenv_lines (ok lines) = ok (dotenv_value lines)
  dotenv_lines (err (os_error e)) = ok none
  dotenv_lines (err e) = err e

  pub dotenv_layer : W → Result (Option String)
  unfolding dotenv_lines
  dotenv_layer w = elim st.dotenv_path [
    | none ↦ ok none
    | some path ↦
        if st.allow_dotenv && not (is_empty path)
        then dotenv_lines (st.read_lines path w)
        else ok none
  ]

  -- behind the first layer
  later_layers : Option String → W → Result (Option String)
  unfolding dotenv_layer lookup
  later_layers (some v) w = ok (some v)
  later_layers none w =
      dotenv_layer w >>= λ found. ok (or_layer found (lookup "OPENAI_API_KEY" st.env))

  -- get_key
  pub get_key : W → Result (Option String)
  unfolding backend_layer later_layers
  get_key w = later_layers (backend_layer w) w

drop_text : ℕ → String → String
drop_text zero s = s
drop_text (suc n) String.[] = String.[]
drop_text (suc n) (String.◌∷◌ c s) = drop_text n s

-- v[-n:], for n > 0
pub last_chars : ℕ → String → String
unfolding drop_text text_length
last_chars n v = drop_text (text_length v - n) v

-- the mask of a key that there is
pub mask : String → String
unfolding text_length take_text last_chars
mask v = if ltb (text_length v) 8 then "***" else take_text 3 v +s "…" +s last_chars 4 v

pub record KeyStatus : Type 0 where
  pub configured : Bool
  pub masked : Option String

pub status_of : Option String → KeyStatus
unfolding mask
status_of none = record { configured = false; masked = none }
status_of (some v) =
    if is_empty v
    then record { configured = false; masked = none }
    else record { configured = true; masked = some (mask v) }

-- status
pub status : {W : Type 0} → Store W → W → Result KeyStatus
unfolding get_key status_of
status st w = get_key st w >>= λ v. ok (status_of v)
