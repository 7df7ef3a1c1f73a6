-- ===== src/Tools/Commands/Samples.antt =====
-- A command and the tests over a table of files.
use aegis_code.Prelude.{◌≡◌, refl, [], none, ok, ◌>>=◌}
use aegis_code.Json.{str, Fields, field, end}
use aegis_code.Tools.{ToolResult, Ctx}
use aegis_code.Tools.Files.{argument}
use aegis_code.Governance.Lexer.{split_json, shlex_split}
use aegis_code.Tools.Table.{table_os}
use aegis_code.Prelude.Int.{ℤ}
use aegis_code.Tools.Commands.{command_result, run_command, run_tests}
use aegis_code.Tools.Commands.Bounds.{Tells, run-Tells}

abbrev ctx : Ctx
ctx = record { task_id = "t1"; workspace_root = none; resolve = λ p. p; write_max_bytes = 10 }

abbrev listing : Fields
listing = field "command" (str "ls") end

abbrev outcome : ToolResult
outcome = command_result 1 (record { stdout = "ok"; stderr = ""; returncode = ℤ.pos 0 })

run-Tells_example :
    ((run_command table_os 30 1 listing ctx []).0 ≡ ok outcome
      → Tells table_os 30 1 none (argument "command" listing >>= split_json) [] outcome)
    × ((run_tests table_os "pytest -q" 30 1 listing ctx []).0 ≡ ok outcome
        → Tells table_os 30 1 none (shlex_split "pytest -q") [] outcome)
run-Tells_example = run-Tells table_os "pytest -q" 30 1 listing ctx [] outcome

listed : (run_command table_os 30 1 listing ctx []).0 ≡ ok outcome
unfolding run_command
listed = refl
