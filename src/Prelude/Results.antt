-- ===== src/Prelude/Results.antt =====
-- Python's exceptions as values. `Error` holds the kinds that the modelled code raises or meets;
-- the text of an exception is kept where the code reads it.
use Prim.Native.String.{String}
use mathlib.Core.Path.{◌≡◌, refl}
use mathlib.Core.Logic.{◌⊎◌, inl, inr}

pub data Error : Type 0 where
  value_error type_error key_error attribute_error : String → Error
  runtime_error superseded_error os_error index_error : String → Error

-- str(exc)
abbrev pub message : Error → String
message (value_error s) = s
message (type_error s) = s
message (key_error s) = s
message (attribute_error s) = s
message (runtime_error s) = s
message (superseded_error s) = s
message (os_error s) = s
message (index_error s) = s

pub data Result {ℓ} (A : Type ℓ) : Type ℓ where
  ok : A → Result A
  err : Error → Result A

infixl 5 ◌>>=◌
abbrev pub ◌>>=◌ {ℓ κ} : {A : Type ℓ} {B : Type κ} → Result A → (A → Result B) → Result B
ok a >>= f = f a
err e >>= f = err e

-- To split on a computed result and keep the equation.
pub Result-cases {ℓ} :
    {A : Type ℓ} (r : Result A) → ((a : A) × (r ≡ ok a)) ⊎ ((e : Error) × (r ≡ err e))
Result-cases (ok a) = inl (a, refl)
Result-cases (err e) = inr (e, refl)
