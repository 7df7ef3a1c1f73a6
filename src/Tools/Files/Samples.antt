-- ===== src/Tools/Files/Samples.antt =====
-- A file written and read back.
use aegis_code.Prelude.{◌≡◌, refl, [], none, ok}
use aegis_code.Prelude.Text.Lines.{encode}
use aegis_code.Tools.{success, Ctx}
use aegis_code.Tools.Table.{table_os, table_os-IsLawful, insert, decode_ascii}
use aegis_code.Tools.Files.{write_file, read_file, wrote}
use aegis_code.Tools.Files.Writes.{writing, reading, text_read, read_file-write_file}

abbrev ctx : Ctx
ctx = record { task_id = "t1"; workspace_root = none; resolve = λ p. p; write_max_bytes = 10 }

decoded : decode_ascii (encode "x = 1") ≡ "x = 1"
unfolding decode_ascii encode
decoded = refl

written : (write_file table_os (writing "a.py" "x = 1") ctx []).0 ≡ ok (wrote table_os "a.py")
unfolding write_file encode insert
written = refl

succeeds : (wrote table_os "a.py").status ≡ success
unfolding wrote
succeeds = refl

read_file-write_file_example :
    (read_file table_os
      (reading "a.py")
      ctx
      (write_file table_os (writing "a.py" "x = 1") ctx []).1).0
    ≡ ok (text_read "x = 1")
read_file-write_file_example =
    read_file-write_file table_os table_os-IsLawful "a.py" "x = 1" ctx [] (wrote table_os "a.py")
      decoded written succeeds
