-- ===== src/Memory/Samples.antt =====
-- A store with an agent's note.
use aegis_code.Prelude.{true, List, [], ◌∷◌, none, some, All}
use aegis_code.Memory.{Note}
use aegis_code.Memory.Sound.{IsSound, Call, writing, retrieving, perform_all, perform_all-Sound}

abbrev note : Note
note = record {
  project_id = "p";
  kind = "fact";
  key = "style";
  value = "tabs";
  tags = none;
  source = "agent";
  confirmed = some true;
}

abbrev calls : List Call
calls = writing "m1" "2026-01-01" note ∷ retrieving "2026-01-02" "p" (some "tab") 8 none ∷ []

perform_all-Sound_example : All IsSound (perform_all calls [])
perform_all-Sound_example = perform_all-Sound calls [] tt
