-- ===== src/Prelude/Int.antt =====
-- Python integers that may be negative, where the program clamps them from below.
use Prim.Native.Nat.{ℕ, ◌≤◌, max}
use native.Mathlib.Omega.{arith}

-- `negsuc n` is -(n + 1).
pub data ℤ : Type 0 where
  pos : ℕ → ℤ
  negsuc : ℕ → ℤ

-- `max(low, z)` for a bound that is not negative.
abbrev pub at_least : ℕ → ℤ → ℕ
at_least low (pos n) = max low n
at_least low (negsuc n) = low

pub at_least_bound : (low : ℕ) (z : ℤ) → low ≤ at_least low z
at_least_bound low (pos n) = omega arith
at_least_bound low (negsuc n) = omega arith
