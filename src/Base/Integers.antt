-- ===== src/Base/Integers.antt =====
-- Integers with a sign, over the native ℕ.
use Prim.Native.Nat.{ℕ, ◌-◌}
use kp.Base.Tests.{leb, if◌then◌else◌}

pub data ℤ : Type 0 where
  pos : ℕ → ℤ
  negsuc : ℕ → ℤ

-- `a - b` for unsigned numbers whose difference is taken as an int.
abbrev pub difference : ℕ → ℕ → ℤ
difference a b = if leb b a then pos (a - b) else negsuc (b - a - 1)
