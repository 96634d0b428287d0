-- ===== src/Base/Strings.antt =====
-- A string as the list of its UTF-16 code units.
use Prim.Native.Nat.{ℕ}
use Prim.Native.Char.{code}
use Prim.Native.String.{String}
use mathlib.Core.Path.{◌≡◌, refl}
use mathlib.Core.Logic.{◌↔◌, ◌⊎◌, inl, inr}
use mathlib.Core.Bool.{Bool, true, false, ◌&&◌, ◌||◌}
use mathlib.Core.List.{List, [], ◌∷◌}
use native.Mathlib.Omega.{arith}
use stellar_onramp.Base.Lists.{length}
use stellar_onramp.Base.Tests.{leb, ◌==◌, Bool-cases}

abbrev pub Text : Type 0
Text = List ℕ

-- The units of an ASCII literal.
abbrev pub codes : String → Text
codes String.[] = []
codes (String.◌∷◌ c s) = code c ∷ codes s

abbrev pub within : ℕ → ℕ → ℕ → Bool
within lo hi c = leb lo c && leb c hi

-- `===` on strings.
unfoldable pub equal : Text → Text → Bool
equal [] [] = true
equal (x ∷ xs) (y ∷ ys) = x == y && equal xs ys
equal _ _ = false

pub equal_iff : (a b : Text) → (equal a b ≡ true) ↔ (a ≡ b)
unfolding equal
equal_iff (x ∷ a) (y ∷ b) = ground (arith, equal_iff a b)
equal_iff _ _ = ground arith

pub equal_self : (a : Text) → equal a a ≡ true
equal_self a = (equal_iff a a).1 refl

abbrev pub is_digit : ℕ → Bool
is_digit c = within b'0' b'9' c

abbrev pub is_hex_digit : ℕ → Bool
is_hex_digit c = is_digit c || within b'a' b'f' c

unfoldable pub all_hex : Text → Bool
all_hex [] = true
all_hex (c ∷ cs) = is_hex_digit c && all_hex cs

-- /^[0-9a-f]{64}$/
abbrev pub is_hex32 : Text → Bool
is_hex32 text = length text == 64 && all_hex text

-- `list.includes(text)`
unfoldable pub includes : List Text → Text → Bool
includes [] text = false
includes (t ∷ ts) text = equal t text || includes ts text

-- The text is one of the list.
abbrev pub IsOneOf : List Text → Text → Type 0
IsOneOf [] text = ⊥
IsOneOf (t ∷ ts) text = (t ≡ text) ⊎ IsOneOf ts text

pub includes-IsOneOf :
    (list : List Text) (text : Text) → includes list text ≡ true → IsOneOf list text
unfolding includes
includes-IsOneOf [] text h = absurd (cc)
includes-IsOneOf (t ∷ ts) text h = elim (Bool-cases (equal t text)) [
  | inl e ↦ inl ((equal_iff t text).0 e)
  | inr e ↦ inr (includes-IsOneOf ts text (ground (arith, e, h)))
]
