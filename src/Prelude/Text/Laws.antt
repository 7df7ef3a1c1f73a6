-- ===== src/Prelude/Text/Laws.antt =====
-- The test of two texts.
use Prim.Native.String.{String}
use mathlib.Core.Path.{◌≡◌}
use mathlib.Core.Logic.{◌≢◌}
use mathlib.Core.Bool.{false}
use native.Mathlib.Omega.{arith}
use text.Mathlib.Text.{◌==◌}
use text.Mathlib.TextEquality.{eq_iff}

pub text_ne : (a b : String) → a == b ≡ false → a ≢ b
text_ne a b h e = ground (arith, h, (eq_iff a b).1 e)
