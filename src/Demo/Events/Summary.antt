-- ===== src/Demo/Events/Summary.antt =====
-- `_summarize_steps` of aegiscode/demo/service.py.
mod Samples
use aegis_code.Prelude.{
  ◌≡◌, refl, ap, ◌∙◌, ℕ, String, List, [], ◌∷◌, Option, none, some, nat_eq, ltb, ◌==◌,
  if◌then◌else◌,
}
use mathlib.Core.Path.{fun_ext}
use aegis_code.Json.{Json, Fields, end, get}
use aegis_code.Audit.Chain.{Row}

-- an entry of `step_map`: the keys that it may have, besides its step
pub record Summary : Type 0 where
  pub tool : Option (Option Json)
  pub governance_decision : Option (Option Json)
  pub approval_state : Option (Option Json)
  pub tool_status : Option (Option Json)
  pub feedback_category : Option (Option Json)

abbrev pub blank : Summary
blank = record {
  tool = none;
  governance_decision = none;
  approval_state = none;
  tool_status = none;
  feedback_category = none;
}

-- the entry of a step, changed, with the steps in ascending order
set_step : ℕ → (Summary → Summary) → List (ℕ × Summary) → List (ℕ × Summary)
set_step i f [] = (i, f blank) ∷ []
set_step i f ((j, s) ∷ rest) =
    let behind = set_step i f rest in
    if nat_eq i j
    then (j, f s) ∷ rest
    else if ltb i j
    then (i, f blank) ∷ (j, s) ∷ rest
    else (j, s) ∷ behind

-- what a row's type does to the entry
pub note : String → Fields → Summary → Summary
unfolding get
note event_type payload s =
    if event_type == "ACTION_PROPOSED"
    then record s { tool = some (get "tool" payload) }
    else if event_type == "GOVERNANCE_DECISION"
    then record s { governance_decision = some (get "decision" payload) }
    else if event_type == "APPROVAL_DECIDED"
    then record s { approval_state = some (get "state" payload) }
    else if event_type == "TOOL_EXECUTED"
    then record s { tool_status = some (get "status" payload) }
    else if event_type == "FEEDBACK"
    then record s { feedback_category = some (get "category" payload) }
    else s

module _ (loads : String → Option Fields) where
  unfoldable pub payload_of : Row → Fields
  payload_of r = elim (loads r.payload_json) [ none ↦ end | some payload ↦ payload ]

  note_rows : List Row → List (ℕ × Summary) → List (ℕ × Summary)
  unfolding set_step note payload_of
  note_rows [] steps = steps
  note_rows (r ∷ rs) steps =
      note_rows rs (set_step r.step_index (note r.event_type (payload_of r)) steps)

  -- _summarize_steps; every stored row has a step
  pub summarize_steps : List Row → List (ℕ × Summary)
  unfolding note_rows
  summarize_steps rows = note_rows rows []

-- Two payloads that agree on the five keys that a summary shows.
pub record Agree (p q : Fields) : Type 0 where
  pub tool : get "tool" p ≡ get "tool" q
  pub decision : get "decision" p ≡ get "decision" q
  pub state : get "state" p ≡ get "state" q
  pub status : get "status" p ≡ get "status" q
  pub category : get "category" p ≡ get "category" q

note-Agree :
    (event_type : String) (p q : Fields) → Agree p q → note event_type p ≡ note event_type q
unfolding note
note-Agree event_type p q a =
    fun_ext λ s. rw (note, a.tool, a.decision, a.state, a.status, a.category) refl

-- what is read of a stored payload
abbrev pub read_or_empty : Option Fields → Fields
read_or_empty none = end
read_or_empty (some payload) = payload

module _ (loads : String → Option Fields) where
  -- Rows of the same steps and types, one by one, whose payloads agree on those keys; all else of
  -- the rows, their stored payloads included, may differ.
  unfoldable pub Alike : List Row → List Row → Type 0
  Alike [] [] = Unit
  Alike (r ∷ rs) (s ∷ ss) =
      (r.step_index ≡ s.step_index)
      × (r.event_type ≡ s.event_type)
      × Agree (read_or_empty (loads r.payload_json)) (read_or_empty (loads s.payload_json))
      × Alike rs ss
  Alike _ _ = ⊥

  payload_of-read : (r : Row) → payload_of loads r ≡ read_or_empty (loads r.payload_json)
  unfolding payload_of
  payload_of-read r = elim (loads r.payload_json) [ none ↦ refl | some payload ↦ refl ]

  note_rows-Alike :
      (rows other : List Row) (steps : List (ℕ × Summary))
      → Alike rows other
      → note_rows loads rows steps ≡ note_rows loads other steps
  unfolding note_rows Alike
  note_rows-Alike [] [] steps h = refl
  note_rows-Alike [] (s ∷ ss) steps h = absurd h
  note_rows-Alike (r ∷ rs) [] steps h = absurd h
  note_rows-Alike (r ∷ rs) (s ∷ ss) steps (index, type, agrees, rest) =
      note_rows-Alike rs ss _ rest
      ∙ ap (λ (f : Summary → Summary). note_rows loads ss (set_step r.step_index f steps))
          (note-Agree r.event_type (payload_of loads r) (payload_of loads s)
            (rw (payload_of-read r, payload_of-read s) agrees))
      ∙ rw (index, type) refl

  -- The summary of a run depends on its rows only by their steps and types and, of their payloads,
  -- by the tool's name, the decision, the approval's state, the status and the category: two lists
  -- of rows that agree in these have the same summary, whatever else their payloads hold, such as
  -- the arguments of an action.
  pub summarize_steps-hides :
      (rows other : List Row)
      → Alike rows other
      → summarize_steps loads rows ≡ summarize_steps loads other
  unfolding summarize_steps
  summarize_steps-hides rows other h = note_rows-Alike rows other [] h
