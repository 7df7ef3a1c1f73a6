-- ===== src/Credentials/JsonFile/Refines.antt =====
-- The JSON file of aegiscode/credentials/backend.py as a function from keys to values.
use aegis_code.Prelude.{
  ◌≡◌, refl, ap, ◌∙◌, String, List, [], ◌∷◌, Option, none, some, Result, ok, err, os_error, arith,
  ◌==◌, eq_iff, if◌then◌else◌,
}
use mathlib.Core.Path.{fun_ext}
use aegis_code.Credentials.JsonFile.{
  Dict, FileOps, then_do, ignore_os, lookup, insert, erase, slot, loaded, load, save, change,
  set_password, delete_password,
}

lookup-insert :
    (k j v : String) (d : Dict) → lookup j (insert k v d) ≡ (if k == j then some v else lookup j d)
unfolding lookup insert
lookup-insert k j v [] = refl
lookup-insert k j v ((i, u) ∷ d) =
    ground (arith, eq_iff i k, eq_iff i j, eq_iff k j, lookup-insert k j v d)

lookup-erase :
    (k j : String) (d : Dict) → lookup j (erase k d) ≡ (if k == j then none else lookup j d)
unfolding lookup erase
lookup-erase k j [] = ground arith
lookup-erase k j ((i, u) ∷ d) =
    ground (arith, eq_iff i k, eq_iff i j, eq_iff k j, lookup-erase k j d)

-- The documented behaviour of the file: what is dumped is loaded, and a change of its mode leaves it.
pub record IsLawful {W : Type 0} (ops : FileOps W) : Type 0 where
  pub load-dump :
      (d : Dict) (w : W)
      → (ops.dump_json d w).0 ≡ ok tt
      → ops.load_json (ops.dump_json d w).1 ≡ ok d
  pub load-chmod : (w : W) → ops.load_json (ops.chmod_file w).1 ≡ ops.load_json w

-- a call that changes the store
pub data Op : Type 0 where
  set : String → String → String → Op
  delete : String → String → Op

abbrev update : String → Option String → (String → Option String) → String → Option String
update k v f j = if k == j then v else f j

-- the calls on a function
unfoldable pub replay : List Op → (String → Option String) → String → Option String
replay [] f = f
replay (set service user value ∷ calls) f = replay calls (update (slot service user) (some value) f)
replay (delete service user ∷ calls) f = replay calls (update (slot service user) none f)

replay_next :
    (c : Op) (calls : List Op) (f g : String → Option String)
    → f ≡ replay (c ∷ []) g
    → replay calls f ≡ replay (c ∷ calls) g
unfolding replay
replay_next (set service user value) calls f g h = ap (replay calls) h
replay_next (delete service user) calls f g h = ap (replay calls) h

abbrev view_of : Result Dict → String → Option String
view_of (ok d) k = lookup k d
view_of (err e) k = none

module _ {W : Type 0} (ops : FileOps W) where
  perform : Op → W → Result (Unit {0}) × W
  perform (set service user value) w = set_password ops service user value w
  perform (delete service user) w = delete_password ops service user w

  -- the calls in order, up to the first that raises
  unfoldable pub run_calls : List Op → W → Result (Unit {0}) × W
  unfolding perform
  run_calls [] w = (ok tt, w)
  run_calls (c ∷ calls) w = then_do (perform c w) (λ w'. run_calls calls w')

  -- what the file says of a key
  pub view : W → String → Option String
  view w = view_of (load ops w)

-- a chain that does not raise ends in its last step, behind a first one that did not raise
then_do-ends :
    {W : Type 0} (P : W → Type 0) (r : Result (Unit {0}) × W) (next : W → Result (Unit {0}) × W)
    → (then_do r next).0 ≡ ok tt
    → (r.0 ≡ ok tt → (next r.1).0 ≡ ok tt → P (next r.1).1)
    → P (then_do r next).1
then_do-ends P (ok _, w) next h step = step refl h
then_do-ends P (err e, w) next h step = absurd (ground arith)

ignore_os-world : {W : Type 0} (r : Result (Unit {0}) × W) → (ignore_os r).1 ≡ r.1
ignore_os-world (ok _, w) = refl
ignore_os-world (err (os_error e), w) = refl
ignore_os-world (err e, w) = refl

module _ {W : Type 0} (ops : FileOps W) (lawful : IsLawful ops) where
  abbrev Loads : Dict → W → Type 0
  Loads d w = load ops w ≡ ok d

  save-load : (d : Dict) (w : W) → (save ops d w).0 ≡ ok tt → Loads d (save ops d w).1
  unfolding save load
  save-load d w h = then_do-ends (Loads d) (ops.make_dir w) _ h λ _ h1.
      then_do-ends (Loads d) (ignore_os (ops.chmod_dir (ops.make_dir w).1)) _ h1 λ _ h2.
        then_do-ends (Loads d) (ops.open_trunc _) _ h2 λ _ h3.
          then_do-ends (Loads d) (ops.dump_json d _) _ h3 λ dumped h4. ap loaded (
            ap ops.load_json (ignore_os-world (ops.chmod_file _))
            ∙ lawful.load-chmod _
            ∙ lawful.load-dump d _ dumped)

  change-view :
      (f : Dict → Dict) (r : Result Dict) (w : W)
      → (change ops f r w).0 ≡ ok tt
      → (d : Dict) × (r ≡ ok d) × Loads (f d) (change ops f r w).1
  unfolding change
  change-view f (ok d) w h = (d, refl, save-load (f d) w h)
  change-view f (err e) w h = absurd (ground arith)

  perform-view :
      (c : Op) (w : W)
      → (perform ops c w).0 ≡ ok tt
      → view ops (perform ops c w).1 ≡ replay (c ∷ []) (view ops w)
  unfolding perform set_password delete_password view replay
  perform-view (set service user value) w h =
      let (d, before, behind) = change-view (insert (slot service user) value) (load ops w) w h in
      fun_ext λ k. rw (behind, before) (lookup-insert (slot service user) k value d)
  perform-view (delete service user) w h =
      let (d, before, behind) = change-view (erase (slot service user)) (load ops w) w h in
      fun_ext λ k. rw (behind, before) (lookup-erase (slot service user) k d)

  -- After any calls none of which raises, what the file says of every key is what the same calls
  -- make of the function that it was before.
  pub run_calls-refines :
      (calls : List Op) (w : W)
      → (run_calls ops calls w).0 ≡ ok tt
      → view ops (run_calls ops calls w).1 ≡ replay calls (view ops w)
  unfolding run_calls replay
  run_calls-refines [] w h = refl
  run_calls-refines (c ∷ calls) w h =
      then_do-ends (λ w'. view ops w' ≡ replay (c ∷ calls) (view ops w)) (perform ops c w)
        (λ w'. run_calls ops calls w') h
        (λ done rest.
          run_calls-refines calls (perform ops c w).1 rest
          ∙ replay_next c calls (view ops (perform ops c w).1) (view ops w) (perform-view c w done))
