-- ===== src/Credentials/Samples.antt =====
-- A key and its status, and a file that holds one dictionary.
use aegis_code.Prelude.{◌≡◌, ◌<◌, refl, String, true, false, List, [], ◌∷◌, some, ok, arith}
use aegis_code.Prelude.Text.{text_length, is_empty}
use aegis_code.Credentials.{status_of}
use aegis_code.Credentials.Masked.{key_of, status_of-hides}
use aegis_code.Credentials.JsonFile.{Dict, FileOps}
use aegis_code.Credentials.JsonFile.Refines.{
  IsLawful, Op, set, delete, run_calls, view, replay, run_calls-refines,
}

four : text_length "wxyz" ≡ 4
unfolding text_length
four = refl

middle : 0 < text_length "-proj-abc"
unfolding text_length
middle = omega arith

other_middle : 0 < text_length "!"
unfolding text_length
other_middle = omega arith

status_of-hides_example :
    (status_of (some (key_of "s" "k" "-" "-proj-abc" "wxyz"))
      ≡ status_of (some (key_of "s" "k" "-" "!" "wxyz")))
    × ((v : String)
        → is_empty v ≡ false
        → text_length v < 8
        → status_of (some v) ≡ record { configured = true; masked = some "***" })
status_of-hides_example =
    status_of-hides "s" "k" "-" "-proj-abc" "!" "wxyz" four middle other_middle

-- the world is what the file holds
abbrev one_file : FileOps Dict
one_file = record {
  load_json = λ w. ok w;
  make_dir = λ w. (ok tt, w);
  chmod_dir = λ w. (ok tt, w);
  open_trunc = λ w. (ok tt, []);
  dump_json = λ d w. (ok tt, d);
  chmod_file = λ w. (ok tt, w);
}

one_file-IsLawful : IsLawful one_file
one_file-IsLawful = record { load-dump = λ d w h. refl; load-chmod = λ w. refl }

abbrev calls : List Op
calls = set "aegiscode" "llm_api_key" "sk-1" ∷ delete "aegiscode" "other" ∷ []

calls_succeed : (run_calls one_file calls []).0 ≡ ok tt
unfolding run_calls aegis_code.Credentials.JsonFile.set_password
    aegis_code.Credentials.JsonFile.delete_password
calls_succeed = refl

run_calls-refines_example :
    view one_file (run_calls one_file calls []).1 ≡ replay calls (view one_file [])
run_calls-refines_example = run_calls-refines one_file one_file-IsLawful calls [] calls_succeed
