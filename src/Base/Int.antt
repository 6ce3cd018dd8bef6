-- ===== src/Base/Int.antt =====
-- The values of a C int, as far as the code compares them with small numbers.
use Prim.Native.Nat.{ℕ}
use mathlib.Core.Bool.{Bool, false}
use pefs.Base.Tests.{◌==◌}

-- `negsuc n` is -(n + 1).
pub data ℤ : Type 0 where
  pos : ℕ → ℤ
  negsuc : ℕ → ℤ

abbrev pub is_nat : ℤ → ℕ → Bool
is_nat (pos n) m = n == m
is_nat (negsuc n) m = false
