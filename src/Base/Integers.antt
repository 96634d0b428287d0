-- ===== src/Base/Integers.antt =====
-- The difference of two instants, which a clock may make negative.
use Prim.Native.Nat.{ℕ, ◌-◌}
use mathlib.Core.Bool.{Bool, true, false}
use stellar_onramp.Base.Tests.{ltb, leb, if◌then◌else◌}

-- `negsuc n` is -(n + 1).
pub data ℤ : Type 0 where
  pos : ℕ → ℤ
  negsuc : ℕ → ℤ

-- a - b
abbrev pub sub_ℕ : ℕ → ℕ → ℤ
sub_ℕ a b = if leb b a then pos (a - b) else negsuc (b - a - 1)

-- a < b, for a bound b that is not negative.
abbrev pub below : ℤ → ℕ → Bool
below (pos n) b = ltb n b
below (negsuc n) b = true

-- b < a, for such a bound.
abbrev pub above : ℤ → ℕ → Bool
above (pos n) b = ltb b n
above (negsuc n) b = false
