-- ===== src/Memory/Sound.antt =====
-- What the rows that aegiscode/memory/store.py keeps never hold.
use aegis_code.Prelude.{
  ◌≡◌, refl, inl, inr, String, false, List, [], ◌∷◌, Option, ℕ, map, arith, eq_iff, ◌==◌,
  Bool-cases, All, All-append,
}
use aegis_code.Security.Scanner.{Finding, scan_text}
use aegis_code.Memory.{
  Entry, Note, found_some, holds_secret, is_confirmed, entry_of, write, use_entry, use_all,
  retrieve,
}

-- A row whose key and value the scanner passes, and that is confirmed only if it is no agent's.
pub record IsSound (r : Entry) : Type 0 where
  pub value_clean : scan_text r.value "<text>" ≡ []
  pub key_clean : scan_text r.key "<text>" ≡ []
  pub agent_unconfirmed : r.source ≡ "agent" → r.confirmed ≡ false

nothing : (fs : List Finding) → found_some fs ≡ false → fs ≡ []
nothing [] h = refl
nothing (f ∷ fs) h = absurd (ground arith)

entry_of-IsSound :
    (memory_id now : String) (n : Note)
    → holds_secret n ≡ false
    → IsSound (entry_of memory_id now n)
unfolding holds_secret entry_of is_confirmed
entry_of-IsSound memory_id now n free = record {
  value_clean = nothing _ (ground arith);
  key_clean = nothing _ (ground arith);
  agent_unconfirmed = λ e. ground (arith, eq_iff n.source "agent");
}

write-Sound :
    (memory_id now : String) (n : Note) (rows : List Entry)
    → All IsSound rows
    → All IsSound (write memory_id now n rows).1
unfolding write
write-Sound memory_id now n rows h = elim (Bool-cases (holds_secret n)) [
  | inl secret ↦ rw secret h
  | inr free ↦ rw free (
      All-append IsSound rows (entry_of memory_id now n ∷ []) h
        (entry_of-IsSound memory_id now n free, tt))
]

use_entry-IsSound : (now k : String) (r : Entry) → IsSound r → IsSound (use_entry now k r)
use_entry-IsSound now k r h = elim (Bool-cases (r.memory_id == k)) [
  | inl is ↦ rw is (record {
    value_clean = h.value_clean;
    key_clean = h.key_clean;
    agent_unconfirmed = h.agent_unconfirmed;
  })
  | inr other ↦ rw other h
]

map-Sound :
    (now k : String) (rows : List Entry)
    → All IsSound rows
    → All IsSound (map (use_entry now k) rows)
map-Sound now k [] h = tt
map-Sound now k (r ∷ rows) h = (use_entry-IsSound now k r h.0, map-Sound now k rows h.1)

use_all-Sound :
    (now : String) (found rows : List Entry)
    → All IsSound rows
    → All IsSound (use_all now found rows)
unfolding use_all
use_all-Sound now [] rows h = h
use_all-Sound now (r ∷ found) rows h =
    use_all-Sound now found (map (use_entry now r.memory_id) rows)
      (map-Sound now r.memory_id rows h)

-- a call of the store
pub data Call : Type 0 where
  writing : String → String → Note → Call
  retrieving : String → String → Option String → ℕ → Option String → Call

unfoldable pub perform : Call → List Entry → List Entry
perform (writing memory_id now n) rows = (write memory_id now n rows).1
perform (retrieving now project_id query top_k kind) rows =
    (retrieve now project_id query top_k kind rows).1

unfoldable pub perform_all : List Call → List Entry → List Entry
unfolding perform
perform_all [] rows = rows
perform_all (c ∷ calls) rows = perform_all calls (perform c rows)

-- If the scanner passes the key and the value of every row and no agent's row is confirmed, this
-- stays so through any writes and retrievals.
pub perform_all-Sound :
    (calls : List Call) (rows : List Entry)
    → All IsSound rows
    → All IsSound (perform_all calls rows)
unfolding perform_all retrieve
perform_all-Sound [] rows h = h
perform_all-Sound (writing memory_id now n ∷ calls) rows h =
    perform_all-Sound calls _ (write-Sound memory_id now n rows h)
perform_all-Sound (retrieving now project_id query top_k kind ∷ calls) rows h =
    perform_all-Sound calls _
      (use_all-Sound now (retrieve now project_id query top_k kind rows).0 rows h)
