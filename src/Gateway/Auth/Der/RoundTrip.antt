-- ===== src/Gateway/Auth/Der/RoundTrip.antt =====
-- `derToRaw` after `rawToDer`, of packages/gateway/src/auth/jws.ts.
use mathlib.Core.Path.{subst}
use mathlib.Core.List.{append-nil}
use stellar_onramp.Base.{
  ℕ, zero, suc, ◌+◌, ◌-◌, ◌≤◌, true, not, ◌&&◌, [], ◌∷◌, ◌++◌, some, ltb, leb, ◌==◌, ◌≡◌, refl, sym,
  ap, ◌∙◌, arith, inl, inr, Bool-cases, ==_iff, le→leb, length, length-append, replicate, take, ok,
  guard-eq-ok, >>=-eq-ok, ok-injective, Bytes,
}
use stellar_onramp.Gateway.Auth.Der.{
  zero_scalar, split_at?, strip, place, read_integer, read_sequence, der_to_raw, starts_high,
  is_zero, signed_body, integer, drop, raw_to_der,
}

split_at?-append : (a b : Bytes) → split_at? (length a) (a ++ b) ≡ some (a, b)
unfolding split_at?
split_at?-append [] b = refl
split_at?-append (x ∷ a) b = ground (arith, split_at?-append a b)

strip-length : (bytes : Bytes) → length (strip bytes) ≤ length bytes
unfolding strip
strip-length [] = omega arith
strip-length (b ∷ []) = omega arith
strip-length (b ∷ c ∷ bytes) = ground (arith, strip-length (c ∷ bytes))

strip-strip : (bytes : Bytes) → strip (strip bytes) ≡ strip bytes
unfolding strip
strip-strip [] = refl
strip-strip (b ∷ []) = refl
strip-strip (b ∷ c ∷ bytes) = elim (Bool-cases (b == 0)) [
  | inl t ↦ let rest = strip-strip (c ∷ bytes) in ground (arith, t, rest)
  | inr f ↦ ground (arith, f)
]

-- What is stripped are zeros.
strip-zeros :
    (bytes : Bytes) → replicate (length bytes - length (strip bytes)) 0 ++ strip bytes ≡ bytes
unfolding strip
strip-zeros [] = refl
strip-zeros (b ∷ []) = refl
strip-zeros (b ∷ c ∷ bytes) = elim (Bool-cases (b == 0)) [
  | inl t ↦
      let short = strip-length (c ∷ bytes) in
      let rest = strip-zeros (c ∷ bytes) in
      let none_at : b ≡ 0 = (==_iff b 0).0 t in
      let same : strip (b ∷ c ∷ bytes) ≡ strip (c ∷ bytes) = ground (arith, t) in
      let more : suc (length (c ∷ bytes)) - length (strip (c ∷ bytes))
          ≡ suc (length (c ∷ bytes) - length (strip (c ∷ bytes))) =
        omega (arith, short) in
      ap (λ v. replicate (suc (length (c ∷ bytes)) - length v) 0 ++ v) same
      ∙ ap (λ k. replicate k 0 ++ strip (c ∷ bytes)) more
      ∙ ap (λ l. 0 ∷ l) rest
      ∙ ap (λ k. k ∷ c ∷ bytes) (sym none_at)
  | inr f ↦
      let same : strip (b ∷ c ∷ bytes) ≡ b ∷ c ∷ bytes = ground (arith, f) in
      let no_more : suc (length (c ∷ bytes)) - length (b ∷ c ∷ bytes) ≡ 0 = omega arith in
      ap (λ v. replicate (suc (length (c ∷ bytes)) - length v) 0 ++ v) same
      ∙ ap (λ k. replicate k 0 ++ (b ∷ c ∷ bytes)) no_more
]

place-strip : (half : Bytes) → length half ≡ 32 → place (strip half) ≡ half
place-strip half h =
    ap (λ n. replicate (n - length (strip half)) 0 ++ strip half) (sym h) ∙ strip-zeros half

strip-ne-empty :
    (half : Bytes) {n : ℕ} → length half ≡ suc n → (k : ℕ) × (length (strip half) ≡ suc k)
unfolding strip
strip-ne-empty [] h = absurd (ground (arith, h))
strip-ne-empty (b ∷ []) h = (0, refl)
strip-ne-empty (b ∷ c ∷ bytes) h = elim (Bool-cases (b == 0)) [
  | inl t ↦ let (k, e) = strip-ne-empty (c ∷ bytes) refl in (k, ground (arith, t, e))
  | inr f ↦ (suc (length bytes), ground (arith, f))
]

strip_zero : (v : Bytes) {k : ℕ} → length v ≡ suc k → strip (0 ∷ v) ≡ strip v
unfolding strip
strip_zero [] h = absurd (ground (arith, h))
strip_zero (b ∷ v) h = refl

-- The body of an integer strips to what it was made of.
strip-signed_body :
    (half : Bytes) {n : ℕ} → length half ≡ suc n → strip (signed_body (strip half)) ≡ strip half
strip-signed_body half h = elim (Bool-cases (starts_high (strip half))) [
  | inl t ↦
      let (k, long) = strip-ne-empty half h in
      let with_zero : signed_body (strip half) ≡ 0 ∷ strip half = ground (arith, t) in
      ap strip with_zero ∙ strip_zero (strip half) long ∙ strip-strip half
  | inr f ↦
      let as_is : signed_body (strip half) ≡ strip half = ground (arith, f) in
      ap strip as_is ∙ strip-strip half
]

length-signed_body :
    (half : Bytes)
    → length half ≡ 32
    → (1 ≤ length (signed_body (strip half))) × (length (signed_body (strip half)) ≤ 33)
length-signed_body half h =
    let (k, long) = strip-ne-empty half h in
    let short = strip-length half in
    elim (Bool-cases (starts_high (strip half))) [
      | inl t ↦
          let with_zero : length (signed_body (strip half)) ≡ suc (length (strip half)) =
            ground (arith, t) in
          (omega (arith, with_zero), omega (arith, with_zero, short, h))
      | inr f ↦
          let as_is : length (signed_body (strip half)) ≡ length (strip half) = ground (arith, f) in
          (omega (arith, as_is, long), omega (arith, as_is, short, h))
    ]

-- An integer that was written is read back, with what follows it.
read_integer-integer :
    (half rest : Bytes) {written : Bytes}
    → length half ≡ 32
    → integer half ≡ ok written
    → (read_integer (written ++ rest) ≡ ok (half, rest))
      × (3 ≤ length written)
      × (length written ≤ 35)
unfolding integer read_integer
read_integer-integer half rest h written =
    let (_, h₁) = guard-eq-ok (not (is_zero (strip half))) zero_scalar written in
    let body = signed_body (strip half) in
    let (least, most) = length-signed_body half h in
    let stripped = strip-signed_body half h in
    let short = strip-length half in
    let parts = split_at?-append (signed_body (strip half)) rest in
    let placed : place (strip (signed_body (strip half))) ≡ half =
      ap place stripped ∙ place-strip half h in
    let sized : (ltb (length body) 128 && (not (length body == 0) && leb (length body) 33)) ≡ true =
      ground (arith, least, most) in
    let fits : leb (length (strip (signed_body (strip half)))) 32 ≡ true =
      ap (λ v. leb (length v) 32) stripped
      ∙ le→leb (length (strip half)) 32 (omega (arith, short, h)) in
    subst (λ w. (read_integer (w ++ rest) ≡ ok (half, rest)) × (3 ≤ length w) × (length w ≤ 35))
      (ok-injective h₁)
      (ground (arith, sized, parts, fits, placed), omega (arith, least), omega (arith, most))

take-drop : (n : ℕ) (bytes : Bytes) → take n bytes ++ drop n bytes ≡ bytes
take-drop zero bytes = refl
take-drop (suc n) [] = refl
take-drop (suc n) (b ∷ bytes) = ap (λ l. b ∷ l) (take-drop n bytes)

length-take : (n : ℕ) (bytes : Bytes) → n ≤ length bytes → length (take n bytes) ≡ n
length-take zero bytes h = refl
length-take (suc n) [] h = absurd (omega (arith, h))
length-take (suc n) (b ∷ bytes) h = ap suc (length-take n bytes (omega (arith, h)))

length-drop : (n : ℕ) (bytes : Bytes) → length (drop n bytes) ≡ length bytes - n
length-drop zero bytes = omega arith
length-drop (suc n) [] = omega arith
length-drop (suc n) (b ∷ bytes) = length-drop n bytes ∙ omega arith

take_all : (bytes : Bytes) → take (length bytes) bytes ≡ bytes
take_all [] = refl
take_all (b ∷ bytes) = ap (λ l. b ∷ l) (take_all bytes)

-- A raw signature of 64 bytes that `rawToDer` turns into DER is what `derToRaw` reads from that DER:
-- leading zeros that were dropped come back, and a sign byte that was added goes.
pub der_to_raw-raw_to_der :
    (raw : Bytes) {der : Bytes}
    → length raw ≡ 64
    → raw_to_der raw ≡ ok der
    → der_to_raw der ≡ ok raw
unfolding raw_to_der der_to_raw read_sequence
der_to_raw-raw_to_der raw h written =
    let r = take 32 raw in
    let rest = drop 32 raw in
    let (first, made, h₁) = >>=-eq-ok (integer (take 32 raw)) _ written in
    let (second, made', h₂) = >>=-eq-ok (integer (take 32 (drop 32 raw))) _ h₁ in
    let half : length (drop 32 raw) ≡ 32 = length-drop 32 raw ∙ omega (arith, h) in
    let whole : take 32 (drop 32 raw) ≡ drop 32 raw =
      ap (λ n. take n (drop 32 raw)) (sym half) ∙ take_all (drop 32 raw) in
    let (read, least, most) =
      read_integer-integer r second (length-take 32 raw (omega (arith, h))) made in
    let (read', least', most') =
      read_integer-integer (take 32 (drop 32 raw)) [] (ap length whole ∙ half) made' in
    let alone : read_integer second ≡ ok (take 32 (drop 32 raw), []) =
      ap read_integer (sym (append-nil second)) ∙ read' in
    let total = length-append first second in
    let back : take 32 raw ++ take 32 (drop 32 raw) ≡ raw =
      ap (λ l. take 32 raw ++ l) whole ∙ take-drop 32 raw in
    subst (λ der. der_to_raw der ≡ ok raw) (ok-injective h₂)
      (let bounds : (leb 8 (suc (suc (length (first ++ second))))
              && leb (suc (suc (length (first ++ second)))) 72)
            ≡ true =
          ground (arith, total, least, most, least', most') in
        let small : ltb (length (first ++ second)) 128 ≡ true =
          ground (arith, total, most, most') in
        let same : (length (first ++ second) + 2 == length (first ++ second) + 2) ≡ true =
          (==_iff (length (first ++ second) + 2) (length (first ++ second) + 2)).1 refl in
        ground (arith, bounds, small, same, read, alone, back))
