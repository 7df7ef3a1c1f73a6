-- ===== src/Service/Assembly/Confinement/Samples.antt =====
-- A harness that may only read and write files, over a world that knows the size of the largest file
-- written.
use aegis_code.Prelude.{
  ◌≡◌, ◌≢◌, refl, ℕ, ◌≤◌, String, false, List, [], ◌∷◌, some, Result, ok, err, os_error, ltb,
  length, if◌then◌else◌, arith,
}
use aegis_code.Prelude.Int.{ℤ}
use aegis_code.Prelude.Text.{mem_text}
use aegis_code.Json.{field, str, end}
use aegis_code.Config.{AegisConfig, default_config, default_tools}
use aegis_code.Governance.Decision.{Action, allow, allow_with_audit}
use aegis_code.Governance.Lexer.{shlex_split}
use aegis_code.Loop.Harness.{Harness, Loop}
use aegis_code.Loop.Termination.{Reason}
use aegis_code.Loop.Turn.{run}
use aegis_code.Loop.Turn.Returns.{turn_bound, run-returns}
use aegis_code.Tools.Os.{Os, exited}
use aegis_code.Tools.Files.{write_through, then_write}
use aegis_code.Service.Assembly.{Given, mock, verify_argv, final_verifier, harness_factory}
use aegis_code.Service.Assembly.Confinement.{alone, SurroundingsKeep, run-Confined}

abbrev larger : ℕ → ℕ → ℕ
larger m n = if ltb m n then n else m

abbrev largest_os : Os ℕ
largest_os = record {
  makedirs = λ path w. (ok tt, w);
  write_bytes = λ path bytes w. (ok tt, larger w (length bytes));
  read_bytes = λ path w. err (os_error "No such file or directory");
  listdir = λ path w. ok [];
  walk = λ path w. [];
  relpath = λ path base. path;
  decode = λ bytes. "";
  run_process = λ argv cwd timeout_sec w.
      (ok (exited (record { stdout = "ok"; stderr = ""; returncode = ℤ.pos 0 })), w);
}

abbrev files_only : AegisConfig
files_only = record default_config {
  tools = record default_tools { enabled = "write_file" ∷ "read_file" ∷ "finish" ∷ [] };
}

abbrev writing : Action
writing = record {
  tool = "write_file";
  arguments = field "path" (str "src/a.py") (field "content" (str "x = 1") end);
}

-- the model always writes the same file
abbrev given : Given ℕ
given = record {
  os = largest_os;
  files = λ w. record { realpath = λ p. p; exists = λ p. false; islink = λ p. false };
  complete = λ client messages w. (ok "write", w);
  parse_action = λ text. ok writing;
  sha256 = λ s. s;
  sha256_16 = λ s. s;
  retrieve = λ project top_k w. (ok [], w);
  elapsed = λ w. (0, w);
}

abbrev harness : Harness ℕ
harness = alone given files_only (mock []) "t1" "/w" (λ w. w ≤ 1048576)

verify_argv-stays :
    (timeout_sec : ℕ) (argv : Result (List String)) (w : ℕ)
    → (verify_argv largest_os "/w" timeout_sec argv w).1 ≡ w
unfolding verify_argv
verify_argv-stays timeout_sec (ok argv) w = refl
verify_argv-stays timeout_sec (err e) w = refl

verifier_stays : (w : ℕ) → (final_verifier largest_os files_only "/w" w).1 ≡ w
unfolding final_verifier
verifier_stays w =
    verify_argv-stays files_only.limits.command_timeout_sec
      (shlex_split files_only.feedback.test_command) w

size_kept : SurroundingsKeep given files_only (mock []) "t1" "/w" (λ w. w ≤ 1048576)
unfolding write_through then_write
size_kept = record {
  complete = λ messages w p. p;
  elapsed = λ w p. p;
  retrieve = λ project top_k w p. p;
  verifier = λ w p. rw (verifier_stays w) p;
  write = λ action path content w is at_path fences in_dirs fits p. ground (arith, fits, p);
}

not_enabled :
    (mem_text "run_command" files_only.tools.enabled ≡ false)
    × (mem_text "run_tests" files_only.tools.enabled ≡ false)
unfolding mem_text
not_enabled = (refl, refl)

writes_strict : files_only.governance.decisions.write ≢ allow
writes_strict e = cc

writes_audit : files_only.governance.decisions.write ≢ allow_with_audit
writes_audit e = cc

enough : turn_bound harness.config.limits ≤ 1000
unfolding harness_factory
enough = omega arith

abbrev ended : (out : Reason × Loop ℕ) × (run harness 1000 "task" 0 ≡ some out)
ended = run-returns harness "task" 1000 0 enough

run-Confined_example : ended.0.1.world ≤ 1048576
run-Confined_example =
    run-Confined given files_only (mock []) "t1" "/w" (λ w. w ≤ 1048576) size_kept not_enabled.0
      not_enabled.1 writes_strict writes_audit 1000 "task" 0 ended.0.0 ended.0.1 (omega arith)
      ended.1
