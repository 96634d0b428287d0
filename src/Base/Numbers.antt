-- ===== src/Base/Numbers.antt =====
-- A JavaScript number, as the checks of this code tell numbers apart.
use Prim.Native.Nat.{ℕ}
use mathlib.Core.Path.{◌≡◌}
use mathlib.Core.Option.{Option, none, some}

pub data Number : Type 0 where
  -- an integer from 0 on
  nat : ℕ → Number
  -- the integer -(n + 1)
  negsuc : ℕ → Number
  -- a fraction, NaN or an infinity: `Number.isInteger` answers false
  non_integer : Number

-- The value where `Number.isInteger(v) && v >= 0`.
abbrev pub to_nat? : Number → Option ℕ
to_nat? (nat n) = some n
to_nat? _ = none

pub to_nat?_sound : (value : Number) {n : ℕ} → to_nat? value ≡ some n → value ≡ nat n
to_nat?_sound (nat n) h = cc
to_nat?_sound (negsuc n) h = absurd (cc)
to_nat?_sound non_integer h = absurd (cc)
