-- ===== src/Credentials/JsonFile.antt =====
-- `JsonFileBackend` of aegiscode/credentials/backend.py, and the choice of a backend. The operations
-- on its one file are parameters; the values in the file are texts.
pub mod Refines
use aegis_code.Prelude.{
  String, Bool, true, false, List, [], ◌∷◌, Option, none, some, Result, ok, err, os_error,
  value_error, ◌==◌, if◌then◌else◌,
}
use aegis_code.Prelude.Text.{◌+s◌, is_empty}
use aegis_code.Credentials.{Backend}

abbrev pub Dict : Type 0
Dict = List (String × String)

-- what the backend does to its file and to its directory
pub record FileOps (W : Type 0) : Type 0 where
  -- open and json.load; a text that is no JSON gives a value_error
  pub load_json : W → Result Dict
  -- os.makedirs(d, mode=0o700, exist_ok=True)
  pub make_dir : W → Result (Unit {0}) × W
  -- os.chmod(d, 0o700)
  pub chmod_dir : W → Result (Unit {0}) × W
  -- os.open(path, O_WRONLY | O_CREAT | O_TRUNC, 0o600)
  pub open_trunc : W → Result (Unit {0}) × W
  -- json.dump(values, fh), and the end of `with`
  pub dump_json : Dict → W → Result (Unit {0}) × W
  -- os.chmod(path, 0o600)
  pub chmod_file : W → Result (Unit {0}) × W

-- a step, and the next one if it does not raise
abbrev pub then_do :
    {W : Type 0} → Result (Unit {0}) × W → (W → Result (Unit {0}) × W) → Result (Unit {0}) × W
then_do (ok _, w) next = next w
then_do (err e, w) next = (err e, w)

-- `except OSError: pass`
abbrev pub ignore_os : {W : Type 0} → Result (Unit {0}) × W → Result (Unit {0}) × W
ignore_os (err (os_error e), w) = (ok tt, w)
ignore_os r = r

-- data.get(key)
unfoldable pub lookup : String → Dict → Option String
lookup k [] = none
lookup k ((j, v) ∷ rest) = if j == k then some v else lookup k rest

-- data[key] = value
unfoldable pub insert : String → String → Dict → Dict
insert k v [] = (k, v) ∷ []
insert k v ((j, u) ∷ rest) = if j == k then (j, v) ∷ rest else (j, u) ∷ insert k v rest

-- data.pop(key, None)
unfoldable pub erase : String → Dict → Dict
erase k [] = []
erase k ((j, u) ∷ rest) = let others = erase k rest in if j == k then others else (j, u) ∷ others

-- _key
abbrev pub slot : String → String → String
slot service user = service +s "/" +s user

-- the `try` of _load
abbrev pub loaded : Result Dict → Result Dict
loaded (err (os_error e)) = ok []
loaded (err (value_error e)) = ok []
loaded r = r

module _ {W : Type 0} (ops : FileOps W) where
  -- _load
  pub load : W → Result Dict
  load w = loaded (ops.load_json w)

  -- _save
  pub save : Dict → W → Result (Unit {0}) × W
  save values w = then_do (ops.make_dir w) λ w1. then_do (ignore_os (ops.chmod_dir w1)) λ w2.
      then_do (ops.open_trunc w2)
        λ w3. then_do (ops.dump_json values w3) λ w4. ignore_os (ops.chmod_file w4)

  -- get_password
  pub get_password : String → String → W → Result (Option String)
  unfolding load
  get_password service user w = elim (load w) [
    | ok values ↦ ok (lookup (slot service user) values)
    | err e ↦ err e
  ]

  -- a change of what is loaded, saved
  pub change : (Dict → Dict) → Result Dict → W → Result (Unit {0}) × W
  unfolding save
  change f (ok values) w = save (f values) w
  change f (err e) w = (err e, w)

  -- set_password
  unfoldable pub set_password : String → String → String → W → Result (Unit {0}) × W
  unfolding load change
  set_password service user value w = change (insert (slot service user) value) (load w) w

  -- delete_password
  unfoldable pub delete_password : String → String → W → Result (Unit {0}) × W
  unfolding load change
  delete_password service user w = change (erase (slot service user)) (load w) w

  abbrev pub json_backend : Backend W
  json_backend = record {
    get_password = get_password;
    set_password = set_password;
    delete_password = delete_password;
  }

-- the backend that build_credential_store chooses
pub data Choice : Type 0 where
  json_file : String → Choice
  keyring : Choice

-- build_credential_store, with AEGIS_HOME and whether the keyring can be used; paths are joined by
-- `pathlib`
pub build_credential_store : (String → String → String) → String → Option String → Bool → Choice
build_credential_store join home none usable =
    if usable then keyring else json_file (join (join home ".aegiscode") "credentials.json")
build_credential_store join home (some aegis_home) usable =
    if is_empty aegis_home
    then (if usable then keyring else json_file (join (join home ".aegiscode") "credentials.json"))
    else json_file (join aegis_home "credentials.json")
