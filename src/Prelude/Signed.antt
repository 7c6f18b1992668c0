-- ===== src/Prelude/Signed.antt =====
-- C's `int` where the source computes negative values, as an integer.
use Prim.Native.Nat.{ℕ, ◌-◌}
use mathlib.Core.Bool.{Bool, true, false}
use cse511_lab.Prelude.Tests.{leb, ◌==◌, if◌then◌else◌}

-- `negsuc n` is -(n + 1).
pub data ℤ : Type 0 where
  pos : ℕ → ℤ
  negsuc : ℕ → ℤ

-- a - b, as an integer.
abbrev pub sub_ℕ : ℕ → ℕ → ℤ
sub_ℕ a b = if leb b a then pos (a - b) else negsuc (b - a - 1)

abbrev pub eq_ℤ : ℤ → ℤ → Bool
eq_ℤ (pos a) (pos b) = a == b
eq_ℤ (negsuc a) (negsuc b) = a == b
eq_ℤ (pos a) (negsuc b) = false
eq_ℤ (negsuc a) (pos b) = false

-- the test `z >= 0`
abbrev pub is_nonneg : ℤ → Bool
is_nonneg (pos a) = true
is_nonneg (negsuc a) = false

-- the test `z <= 0`
abbrev pub is_nonpos : ℤ → Bool
is_nonpos (pos a) = a == 0
is_nonpos (negsuc a) = true
