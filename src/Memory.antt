-- ===== src/Memory.antt =====
-- `MemoryStore` of aegiscode/memory/store.py over the rows of the table `memories`, in the order of
-- their insertion. Identifiers and times are arguments.
pub mod Sound
pub mod Retrieved
mod Samples
use aegis_code.Prelude.{
  ℕ, zero, suc, ◌+◌, String, Char, code, Bool, true, false, not, ◌&&◌, ◌||◌, List, [], ◌∷◌, ◌++◌,
  Option, none, some, map, take, any, nat_eq, leb, ◌==◌, if◌then◌else◌,
}
use aegis_code.Prelude.Text.{◌+s◌, is_empty, is_char, join_with, mem_text}
use aegis_code.Prelude.Text.Lines.{text_leb}
use aegis_code.Json.{Json, null, str, arr, Items, nil, cons}
use aegis_code.Json.Dumps.{dumps}
use aegis_code.Security.Scanner.{Finding, scan_text}

pub record Entry : Type 0 where
  pub memory_id : String
  pub project_id : String
  pub kind : String
  pub key : String
  pub value : String
  pub tags_json : String
  pub source : String
  pub confirmed : Bool
  pub created_at : String
  pub last_used_at : String
  pub use_count : ℕ

-- the arguments of `write`
pub record Note : Type 0 where
  pub project_id : String
  pub kind : String
  pub key : String
  pub value : String
  pub tags : Option (List String)
  pub source : String
  pub confirmed : Option Bool

abbrev tag_items : List String → Items
tag_items [] = nil
tag_items (t ∷ ts) = cons (str t) (tag_items ts)

abbrev tags_value : Option (List String) → Json
tags_value none = null
tags_value (some ts) = arr (tag_items ts)

-- " ".join(tags or [])
abbrev pub tags_text : Option (List String) → String
unfolding join_with
tags_text none = join_with " " []
tags_text (some ts) = join_with " " ts

abbrev pub found_some : List Finding → Bool
found_some [] = false
found_some (f ∷ fs) = true

-- scan_text(value) or scan_text(key) or scan_text(" ".join(tags or []))
pub holds_secret : Note → Bool
unfolding scan_text
holds_secret n =
    found_some (scan_text n.value "<text>")
    || found_some (scan_text n.key "<text>")
    || found_some (scan_text (tags_text n.tags) "<text>")

abbrev confirmed_or_true : Option Bool → Bool
confirmed_or_true none = true
confirmed_or_true (some b) = b

pub is_confirmed : Note → Bool
is_confirmed n = if n.source == "agent" then false else confirmed_or_true n.confirmed

pub entry_of : String → String → Note → Entry
unfolding is_confirmed dumps
entry_of memory_id now n = record {
  memory_id = memory_id;
  project_id = n.project_id;
  kind = n.kind;
  key = n.key;
  value = n.value;
  tags_json = dumps (tags_value n.tags);
  source = n.source;
  confirmed = is_confirmed n;
  created_at = now;
  last_used_at = now;
  use_count = 0;
}

-- write: the identifier, if a row was made, and the table
pub write : String → String → Note → List Entry → Option String × List Entry
unfolding holds_secret entry_of
write memory_id now n rows =
    if holds_secret n then (none, rows) else (some memory_id, rows ++ entry_of memory_id now n ∷ [])

-- upper-case ASCII letters as lower-case ones, which LIKE does not tell apart
fold_case : Char → ℕ
fold_case c = let n = code c in if leb b'A' n && leb n b'Z' then n + 32 else n

-- whether a test holds at the head of some suffix
some_suffix : (String → Bool) → String → Bool
some_suffix p String.[] = p ""
some_suffix p (String.◌∷◌ c s) = p (String.◌∷◌ c s) || some_suffix p s

like_char : Char → (String → Bool) → String → Bool
unfolding fold_case
like_char k rest String.[] = false
like_char k rest (String.◌∷◌ c s) = (is_char b'_' k || nat_eq (fold_case k) (fold_case c)) && rest s

-- text LIKE pattern
pub like : String → String → Bool
unfolding some_suffix like_char
like String.[] = is_empty
like (String.◌∷◌ k ks) =
    let rest = like ks in if is_char b'%' k then some_suffix rest else like_char k rest

-- the keyword condition; without a query there is none
pub has_keyword : Option String → Entry → Bool
unfolding like
has_keyword none r = true
has_keyword (some query) r =
    let pattern = "%" +s query +s "%" in
    is_empty query || like pattern r.key || like pattern r.value || like pattern r.tags_json

pub has_kind : Option String → Entry → Bool
has_kind none r = true
has_kind (some kind) r = r.kind == kind

-- the WHERE clause
pub selects : String → Option String → Option String → Entry → Bool
unfolding has_keyword has_kind
selects project_id query kind r =
    r.project_id == project_id && has_keyword query r && has_kind kind r

pub select : (Entry → Bool) → List Entry → List Entry
select p [] = []
select p (r ∷ rs) = let rest = select p rs in if p r then r ∷ rest else rest

-- ORDER BY last_used_at DESC; rows of one time keep their order
place : Entry → List Entry → List Entry
unfolding text_leb
place r [] = r ∷ []
place r (s ∷ rs) =
    let rest = place r rs in if text_leb s.last_used_at r.last_used_at then r ∷ s ∷ rs else s ∷ rest

pub latest_first : List Entry → List Entry
unfolding place
latest_first [] = []
latest_first (r ∷ rs) = place r (latest_first rs)

-- UPDATE memories SET use_count=use_count+1, last_used_at=? WHERE memory_id=?
abbrev pub use_entry : String → String → Entry → Entry
use_entry now memory_id r =
    if r.memory_id == memory_id
    then record r { use_count = r.use_count + 1; last_used_at = now }
    else r

pub use_all : String → List Entry → List Entry → List Entry
use_all now [] rows = rows
use_all now (r ∷ rs) rows = use_all now rs (map (use_entry now r.memory_id) rows)

-- retrieve: the rows as they were, and the table
pub retrieve :
    String → String → Option String → ℕ → Option String → List Entry → List Entry × List Entry
unfolding selects select latest_first use_all
retrieve now project_id query top_k kind rows =
    let found = take top_k (latest_first (select (selects project_id query kind) rows)) in
    (found, use_all now found rows)

-- is_governance_usable
pub is_governance_usable : Entry → Bool
is_governance_usable r = not (r.source == "agent")
