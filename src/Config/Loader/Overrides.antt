-- ===== src/Config/Loader/Overrides.antt =====
-- What the overrides of aegiscode/config/loader.py leave alone.
use aegis_code.Prelude.{
  ◌≡◌, ◌≢◌, refl, sym, String, false, List, [], ◌∷◌, Option, none, some, Result, ok, err, ◌==◌,
  eq_iff, arith, if◌then◌else◌, ◌>>=◌, ◌∙◌, ap, All,
}
use aegis_code.Json.{Json, Fields, end, field, get, put}
use aegis_code.Config.Loader.{env_map, lookup_env, override, apply_map, apply_env_overrides}

get-put :
    (k j : String) (v : Json) (fs : Fields)
    → get k (put j v fs) ≡ (if j == k then some v else get k fs)
unfolding get put
get-put k j v end = refl
get-put k j v (field i w fs) = ground (arith, get-put k j v fs, eq_iff i j, eq_iff i k, eq_iff j k)

ok_inj : {A : Type 0} {a b : A} → ok a ≡ ok b → a ≡ b
ok_inj h = cc

-- the section of an override is another one
abbrev pub Elsewhere : String → String × String × String → Type 0
Elsewhere k e = e.1 == k ≡ false

put-Elsewhere :
    (k section : String) (r : Result Json) (raw raw' : Fields)
    → section == k ≡ false
    → (r >>= λ inner. ok (put section inner raw)) ≡ ok raw'
    → get k raw' ≡ get k raw
put-Elsewhere k section (ok inner) raw raw' ne h =
    ap (get k) (sym (ok_inj h)) ∙ get-put k section inner raw ∙ rw ne refl
put-Elsewhere k section (err e) raw raw' ne h = ground arith

override-Elsewhere :
    (k section f : String) (o : Option String) (raw raw' : Fields)
    → section == k ≡ false
    → override section f o raw ≡ ok raw'
    → get k raw' ≡ get k raw
unfolding override
override-Elsewhere k section f none raw raw' ne h = ap (get k) (sym (ok_inj h))
override-Elsewhere k section f (some v) raw raw' ne h = put-Elsewhere k section _ raw raw' ne h

-- Every section that no entry of the map names is as it was.
apply_map-Elsewhere :
    (k : String) (entries : List (String × String × String)) (env : List (String × String))
    (raw raw' : Fields)
    → All (Elsewhere k) entries
    → apply_map entries env raw ≡ ok raw'
    → get k raw' ≡ get k raw
unfolding apply_map
apply_map-Elsewhere k [] env raw raw' a h = ap (get k) (sym (ok_inj h))
apply_map-Elsewhere k ((key, section, f) ∷ rest) env raw raw' (e, a) h =
    go (override section f (lookup_env key env) raw) refl
      (λ mid o. apply_map-Elsewhere k rest env mid raw' a o) h
  where
    go :
        (r : Result Fields)
        → override section f (lookup_env key env) raw ≡ r
        → ((mid : Fields) → apply_map rest env mid ≡ ok raw' → get k raw' ≡ get k mid)
        → (r >>= λ mid. apply_map rest env mid) ≡ ok raw'
        → get k raw' ≡ get k raw
    go (err x) o later h = ground arith
    go (ok mid) o later h =
        later mid h ∙ override-Elsewhere k section f (lookup_env key env) raw mid e o

-- The environment's overrides leave every section but "llm" and "workspace" as it was.
pub apply_env_overrides-get :
    (k : String) (env : List (String × String)) (raw raw' : Fields)
    → k ≢ "llm"
    → k ≢ "workspace"
    → apply_env_overrides raw env ≡ ok raw'
    → get k raw' ≡ get k raw
unfolding apply_env_overrides
apply_env_overrides-get k env raw raw' llm workspace h =
    apply_map-Elsewhere k env_map env raw raw' (l, (l, (w, (w, tt)))) h
  where
    l : "llm" == k ≡ false
    l = ground (arith, eq_iff "llm" k, llm)

    w : "workspace" == k ≡ false
    w = ground (arith, eq_iff "workspace" k, workspace)
