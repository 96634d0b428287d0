-- ===== src/Base/Instants.antt =====
-- A JavaScript number as a point of time: what its comparisons with integers can tell of it.
use Prim.Native.Nat.{ℕ, ◌≤◌, ◌<◌}
use mathlib.Core.Path.{◌≡◌, refl}
use mathlib.Core.Logic.{◌⊎◌, inl, inr}
use mathlib.Core.Bool.{Bool, true, false, not}
use native.Mathlib.Omega.{arith}
use stellar_onramp.Base.Tests.{ltb, leb}
use stellar_onramp.Base.Numbers.{Number, nat, negsuc, non_integer}

pub data Instant : Type 0 where
  nan infinity minus_infinity : Instant
  -- the integers n and -(n + 1)
  whole negative : ℕ → Instant
  -- a fraction between n and n + 1, or between -(n + 1) and -n; whether adding an integer to it rounds
  -- it up to the next one
  part negative_part : ℕ → Bool → Instant

-- `Number.isFinite(t)`
abbrev pub is_finite : Instant → Bool
is_finite nan = false
is_finite infinity = false
is_finite minus_infinity = false
is_finite _ = true

-- `t > x` for an integer x
abbrev pub is_after : Instant → Number → Bool
is_after infinity (nat e) = true
is_after infinity (negsuc e) = true
is_after (whole n) (nat e) = ltb e n
is_after (whole n) (negsuc e) = true
is_after (part n up) (nat e) = leb e n
is_after (part n up) (negsuc e) = true
is_after (negative n) (negsuc e) = ltb n e
is_after (negative_part n up) (negsuc e) = leb n e
is_after _ _ = false

-- `t < x`
abbrev pub is_earlier : Instant → Number → Bool
is_earlier minus_infinity (nat e) = true
is_earlier minus_infinity (negsuc e) = true
is_earlier (whole n) (nat e) = ltb n e
is_earlier (part n up) (nat e) = ltb n e
is_earlier (negative n) (nat e) = true
is_earlier (negative n) (negsuc e) = ltb e n
is_earlier (negative_part n up) (nat e) = true
is_earlier (negative_part n up) (negsuc e) = ltb e n
is_earlier _ _ = false

-- `t >= x`
abbrev pub is_from : Instant → Number → Bool
is_from (whole n) (nat e) = leb e n
is_from (negative n) (negsuc e) = leb n e
is_from t x = is_after t x

-- `t >= x` and `t < x` as propositions on integers: no number that is NaN satisfies either.
abbrev pub IsFrom : Instant → Number → Type 0
IsFrom infinity (nat e) = Unit
IsFrom infinity (negsuc e) = Unit
IsFrom (whole n) (nat e) = e ≤ n
IsFrom (whole n) (negsuc e) = Unit
IsFrom (part n up) (nat e) = e ≤ n
IsFrom (part n up) (negsuc e) = Unit
IsFrom (negative n) (negsuc e) = n ≤ e
IsFrom (negative_part n up) (negsuc e) = n ≤ e
IsFrom _ _ = ⊥

abbrev pub IsEarlier : Instant → Number → Type 0
IsEarlier minus_infinity (nat e) = Unit
IsEarlier minus_infinity (negsuc e) = Unit
IsEarlier (whole n) (nat e) = n < e
IsEarlier (part n up) (nat e) = n < e
IsEarlier (negative n) (nat e) = Unit
IsEarlier (negative n) (negsuc e) = e < n
IsEarlier (negative_part n up) (nat e) = Unit
IsEarlier (negative_part n up) (negsuc e) = e < n
IsEarlier _ _ = ⊥

abbrev pub IsInteger : Number → Type 0
IsInteger non_integer = ⊥
IsInteger _ = Unit

-- Neither earlier than x, nor NaN, is from x on; and the other way round.
pub not_earlier-IsFrom :
    (t : Instant) (x : Number) → IsInteger x → not (is_earlier t x) ≡ true → (t ≡ nan) ⊎ IsFrom t x
not_earlier-IsFrom nan x i h = inl refl
not_earlier-IsFrom infinity (nat e) i h = inr tt
not_earlier-IsFrom infinity (negsuc e) i h = inr tt
not_earlier-IsFrom minus_infinity (nat e) i h = absurd (cc)
not_earlier-IsFrom minus_infinity (negsuc e) i h = absurd (cc)
not_earlier-IsFrom (whole n) (nat e) i h = inr (ground (arith, h))
not_earlier-IsFrom (whole n) (negsuc e) i h = inr tt
not_earlier-IsFrom (part n up) (nat e) i h = inr (ground (arith, h))
not_earlier-IsFrom (part n up) (negsuc e) i h = inr tt
not_earlier-IsFrom (negative n) (nat e) i h = absurd (cc)
not_earlier-IsFrom (negative n) (negsuc e) i h = inr (ground (arith, h))
not_earlier-IsFrom (negative_part n up) (nat e) i h = absurd (cc)
not_earlier-IsFrom (negative_part n up) (negsuc e) i h = inr (ground (arith, h))
not_earlier-IsFrom t non_integer i h = absurd i

pub not_from-IsEarlier :
    (t : Instant) (x : Number) → IsInteger x → not (is_from t x) ≡ true → (t ≡ nan) ⊎ IsEarlier t x
not_from-IsEarlier nan x i h = inl refl
not_from-IsEarlier infinity (nat e) i h = absurd (cc)
not_from-IsEarlier infinity (negsuc e) i h = absurd (cc)
not_from-IsEarlier minus_infinity (nat e) i h = inr tt
not_from-IsEarlier minus_infinity (negsuc e) i h = inr tt
not_from-IsEarlier (whole n) (nat e) i h = inr (ground (arith, h))
not_from-IsEarlier (whole n) (negsuc e) i h = absurd (cc)
not_from-IsEarlier (part n up) (nat e) i h = inr (ground (arith, h))
not_from-IsEarlier (part n up) (negsuc e) i h = absurd (cc)
not_from-IsEarlier (negative n) (nat e) i h = inr tt
not_from-IsEarlier (negative n) (negsuc e) i h = inr (ground (arith, h))
not_from-IsEarlier (negative_part n up) (nat e) i h = inr tt
not_from-IsEarlier (negative_part n up) (negsuc e) i h = inr (ground (arith, h))
not_from-IsEarlier t non_integer i h = absurd i

-- A finite point of time up to e.
abbrev pub IsUpTo : Instant → ℕ → Type 0
IsUpTo (whole n) e = n ≤ e
IsUpTo (part n up) e = n < e
IsUpTo (negative n) e = Unit
IsUpTo (negative_part n up) e = Unit
IsUpTo _ e = ⊥

pub not_after-IsUpTo :
    (t : Instant) (e : ℕ) → is_finite t ≡ true → not (is_after t (nat e)) ≡ true → IsUpTo t e
not_after-IsUpTo nan e f h = absurd (cc)
not_after-IsUpTo infinity e f h = absurd (cc)
not_after-IsUpTo minus_infinity e f h = absurd (cc)
not_after-IsUpTo (whole n) e f h = ground (arith, h)
not_after-IsUpTo (part n up) e f h = ground (arith, h)
not_after-IsUpTo (negative n) e f h = tt
not_after-IsUpTo (negative_part n up) e f h = tt
