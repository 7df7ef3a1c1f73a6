-- ===== src/Prelude/Int.antt =====
-- Python's integers where they can be negative; `negsuc n` is -(n + 1).
use Prim.Native.Nat.{ℕ, ◌+◌}
use Prim.Native.String.{String}
use mathlib.Core.Bool.{Bool, true, false}
use aegis_code.Prelude.Text.{◌+s◌}
use aegis_code.Prelude.Text.Repr.{decimal}

pub data ℤ : Type 0 where
  pos : ℕ → ℤ
  negsuc : ℕ → ℤ

-- n == 0
abbrev pub is_zero : ℤ → Bool
is_zero (pos ℕ.zero) = true
is_zero _ = false

unfoldable pub decimal_ℤ : ℤ → String
unfolding decimal
decimal_ℤ (pos n) = decimal n
decimal_ℤ (negsuc n) = "-" +s decimal (n + 1)
