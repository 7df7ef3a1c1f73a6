-- ===== src/Tools/Os.antt =====
-- What the tools call of the operating system: files, directories and processes, over the world
-- `W`. An operation may raise, and what it did to the world before stays done.
use aegis_code.Prelude.{◌≡◌, ℕ, String, List, Option, Result, ok}
use aegis_code.Prelude.Int.{ℤ}

-- a finished process
pub record Completed : Type 0 where
  pub stdout : String
  pub stderr : String
  pub returncode : ℤ

pub data Process : Type 0 where
  exited : Completed → Process
  timed_out : Process

pub record Os (W : Type 0) : Type 0 where
  -- os.makedirs(path, exist_ok=True)
  pub makedirs : String → W → Result (Unit {0}) × W
  -- the bytes written through open(path, "w", encoding="utf-8")
  pub write_bytes : String → List ℕ → W → Result (Unit {0}) × W
  -- open(path, "rb").read()
  pub read_bytes : String → W → Result (List ℕ)
  -- os.listdir(path)
  pub listdir : String → W → Result (List String)
  -- os.walk(path): each directory with its files
  pub walk : String → W → List (String × List String)
  -- os.path.relpath(path, base)
  pub relpath : String → String → String
  -- raw.decode(errors="replace")
  pub decode : List ℕ → String
  -- subprocess.run(argv, cwd=…, timeout=…)
  pub run_process : List String → Option String → ℕ → W → Result Process × W

-- The documented behaviour that the round trip through a file relies on.
pub record IsLawful {W : Type 0} (os : Os W) : Type 0 where
  pub read-write :
      (path : String) (bytes : List ℕ) (w : W)
      → (os.write_bytes path bytes w).0 ≡ ok tt
      → os.read_bytes path (os.write_bytes path bytes w).1 ≡ ok bytes
