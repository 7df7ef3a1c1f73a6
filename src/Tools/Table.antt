-- ===== src/Tools/Table.antt =====
-- An operating system over a table of files, at which the theorems on the tools are applied.
use aegis_code.Prelude.{
  ◌≡◌, ℕ, ◌-◌, String, List, [], ◌∷◌, Result, ok, err, os_error, ◌==◌, eq_iff, arith, if◌then◌else◌,
  map,
}
use aegis_code.Prelude.Int.{ℤ}
use aegis_code.Prelude.Text.{◌+s◌}
use aegis_code.Tools.Os.{Os, IsLawful, exited}

abbrev pub Table : Type 0
Table = List (String × List ℕ)

unfoldable pub lookup : String → Table → Result (List ℕ)
lookup path [] = err (os_error "No such file or directory")
lookup path ((p, bytes) ∷ table) = if p == path then ok bytes else lookup path table

unfoldable pub insert : String → List ℕ → Table → Table
insert path bytes [] = (path, bytes) ∷ []
insert path bytes ((p, old) ∷ table) =
    if p == path then (p, bytes) ∷ table else (p, old) ∷ insert path bytes table

lookup-insert :
    (path : String) (bytes : List ℕ) (table : Table)
    → lookup path (insert path bytes table) ≡ ok bytes
unfolding lookup insert
lookup-insert path bytes [] = ground (arith, eq_iff path path)
lookup-insert path bytes ((p, old) ∷ table) = ground (arith, lookup-insert path bytes table)

-- the printable ASCII characters from the space on
abbrev printable : String
printable =
    " !\"#$%&'()*+,-./0123456789:;<=>?@ABCDEFGHIJKLMNOPQRSTUVWXYZ[\\]^_`abcdefghijklmnopqrstuvwxyz{|}~"

char_at : String → ℕ → String
char_at String.[] n = "?"
char_at (String.◌∷◌ c s) ℕ.zero = String.◌∷◌ c String.[]
char_at (String.◌∷◌ c s) (ℕ.suc n) = char_at s n

unfoldable pub decode_ascii : List ℕ → String
unfolding char_at
decode_ascii [] = ""
decode_ascii (b ∷ bytes) = char_at printable (b - 32) +s decode_ascii bytes

abbrev names_of : Table → List String
names_of table = map (λ (row : String × List ℕ). row.0) table

-- every process prints "ok" and exits with 0
abbrev pub table_os : Os Table
table_os = record {
  makedirs = λ path w. (ok tt, w);
  write_bytes = λ path bytes w. (ok tt, insert path bytes w);
  read_bytes = lookup;
  listdir = λ path w. ok (names_of w);
  walk = λ path w. ("", names_of w) ∷ [];
  relpath = λ path base. path;
  decode = decode_ascii;
  run_process = λ argv cwd timeout_sec w.
      (ok (exited (record { stdout = "ok"; stderr = ""; returncode = ℤ.pos 0 })), w);
}

pub table_os-IsLawful : IsLawful table_os
table_os-IsLawful = record { read-write = λ path bytes w h. lookup-insert path bytes w }
