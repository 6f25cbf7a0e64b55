-- ===== src/Prelude/Int.antt =====
-- Signed integers over the native numbers, as `int` and `long` hold them.
use Prim.Native.Nat.{ℕ, ◌-◌, ◌%◌, ◌^◌}
use mathlib.Core.Bool.{Bool, false}
use accel_observer.Prelude.Tests.{ltb, leb, ◌==◌, if◌then◌else◌}

-- `negsuc n` is -(n + 1).
pub data ℤ : Type 0 where
  pos : ℕ → ℤ
  negsuc : ℕ → ℤ

-- whether the integer is the number
abbrev pub is_int : ℕ → ℤ → Bool
is_int n (pos m) = m == n
is_int n (negsuc m) = false

-- `0 <= x && x <= n`
abbrev pub in_range : ℕ → ℤ → Bool
in_range n (pos m) = leb m n
in_range n (negsuc m) = false

-- the cast to a 32-bit `int`
abbrev pub signed_32 : ℕ → ℤ
signed_32 v = if ltb v (2 ^ 31) then pos v else negsuc (2 ^ 32 - 1 - v)

abbrev pub to_int : ℕ → ℤ
to_int n = signed_32 (n % 2 ^ 32)
