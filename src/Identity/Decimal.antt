-- ===== src/Identity/Decimal.antt =====
-- `String(n)` and `Number(text)` of whole numbers, as packages/identity/src/schema.ts uses them.
use stellar_onramp.Base.{
  ap, ℕ, zero, suc, ◌+◌, ◌-◌, ◌*◌, ◌/◌, ◌%◌, ◌<◌, Bool, true, false, ◌&&◌, [], ◌∷◌, ltb,
  if◌then◌else◌, ◌≡◌, refl, arith, Text, within, is_digit, if-cases, ◌∙◌,
}

-- The digits of a number in front of a text.
unfoldable pub digits_of : ℕ → ℕ → Text → Text
digits_of zero n text = text
digits_of (suc fuel) n text =
    let further = digits_of fuel (n / 10) ((b'0' + n % 10) ∷ text) in
    if ltb n 10 then (b'0' + n) ∷ text else further

abbrev pub decimal : ℕ → Text
decimal n = digits_of (suc n) n []

unfoldable pub read_digits : ℕ → Text → ℕ
read_digits value [] = value
read_digits value (c ∷ cs) = read_digits (value * 10 + (c - b'0')) cs

unfoldable pub all_digits : Text → Bool
all_digits [] = true
all_digits (c ∷ cs) = is_digit c && all_digits cs

-- /^(0|[1-9][0-9]*)$/
unfoldable pub is_canonical_uint : Text → Bool
is_canonical_uint [] = false
is_canonical_uint (c ∷ []) = is_digit c
is_canonical_uint (c ∷ d ∷ cs) = within b'1' b'9' c && all_digits (d ∷ cs)

-- A number is read back after its digits.
read_digits-digits_of :
    (fuel n : ℕ) (text : Text)
    → n < fuel
    → read_digits 0 (digits_of fuel n text) ≡ read_digits n text
unfolding digits_of read_digits
read_digits-digits_of zero n text h = absurd (ground arith)
read_digits-digits_of (suc fuel) n text h =
    if-cases (λ t. read_digits 0 t ≡ read_digits n text) (ltb n 10) ((b'0' + n) ∷ text)
      (digits_of fuel (n / 10) ((b'0' + n % 10) ∷ text))
      (λ small. ap (λ v. read_digits v text) (ground arith))
      (λ large.
        read_digits-digits_of fuel (n / 10) ((b'0' + n % 10) ∷ text) (grind (arith, large))
        ∙ ap (λ v. read_digits v text) (grind arith))

pub read-decimal : (n : ℕ) → read_digits 0 (decimal n) ≡ n
unfolding read_digits
read-decimal n = read_digits-digits_of (suc n) n [] (ground arith)

digits_of-canonical :
    (fuel n : ℕ) (text : Text)
    → n < fuel
    → 0 < n
    → all_digits text ≡ true
    → is_canonical_uint (digits_of fuel n text) ≡ true
unfolding digits_of is_canonical_uint all_digits
digits_of-canonical zero n text h p d = absurd (ground arith)
digits_of-canonical (suc fuel) n text h p d =
    if-cases (λ t. is_canonical_uint t ≡ true) (ltb n 10) ((b'0' + n) ∷ text)
      (digits_of fuel (n / 10) ((b'0' + n % 10) ∷ text)) (λ small. leads text d small)
      (λ large.
        digits_of-canonical fuel (n / 10) ((b'0' + n % 10) ∷ text) (grind (arith, large))
          (grind (arith, large)) (ground (arith, d)))
  where
    leads :
        (t : Text)
        → all_digits t ≡ true
        → ltb n 10 ≡ true
        → is_canonical_uint ((b'0' + n) ∷ t) ≡ true
    leads [] e small = ground (arith, p, small)
    leads (c ∷ cs) e small = ground (arith, p, e, small)

pub decimal-canonical : (n : ℕ) → is_canonical_uint (decimal n) ≡ true
unfolding digits_of is_canonical_uint all_digits
decimal-canonical zero = refl
decimal-canonical (suc m) =
    digits_of-canonical (suc (suc m)) (suc m) [] (ground arith) (ground arith) refl
