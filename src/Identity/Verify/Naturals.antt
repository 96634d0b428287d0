-- ===== src/Identity/Verify/Naturals.antt =====
-- The numbers that `decodeDisclosed` (packages/identity/src/schema.ts) gives are natural.
use mathlib.Core.Path.{subst}
use stellar_onramp.Base.{
  ℕ, List, [], ◌∷◌, some, ◌==◌, length, leb, ◌≡◌, ◌∙◌, inl, inr, arith, Bool-cases, Option-cases,
  Number, nat, Text, codes, equal, ok, ok-injective, guard-eq-ok, >>=-eq-ok, or_throw-eq-ok,
  get_elem?, is_hex32,
}
use stellar_onramp.Identity.Decimal.{is_canonical_uint, read_digits}
use stellar_onramp.Identity.Schema.{
  ClaimKind, bool, uint, hex32, string, ClaimName, name_text, ClaimValue, claim_specs, claim_kind,
  max_safe_integer, split, decode_value, decode_message, decode_disclosed, length_mismatch,
  not_in_schema, malformed, wrong_name, non_canonical, unsafe_uint, not_hex32,
}
use stellar_onramp.Identity.Verify.Policy.{Decoded, lookup}

abbrev IsNatural : ClaimValue → Type 0
IsNatural value = (x : Number) → value ≡ ClaimValue.number x → (n : ℕ) × (x ≡ nat n)

-- Each number that is disclosed is a natural one.
abbrev pub AreNatural : Decoded → Type 0
AreNatural decoded =
    (name : Text) (x : Number)
    → lookup name decoded ≡ some (ClaimValue.number x)
    → (n : ℕ) × (x ≡ nat n)

decode_value-IsNatural :
    (kind : ClaimKind) (raw : Text) {value : ClaimValue}
    → decode_value kind raw ≡ ok value
    → IsNatural value
unfolding decode_value
decode_value-IsNatural bool raw h x is = elim (Bool-cases (equal raw (codes "true"))) [
  | inl same ↦ absurd (ground (arith, same, h, is))
  | inr differs ↦ elim (Bool-cases (equal raw (codes "false"))) [
    | inl same ↦ absurd (ground (arith, differs, same, h, is))
    | inr other ↦ absurd (ground (arith, differs, other, h, is))
  ]
]
decode_value-IsNatural uint raw h x is =
    let (_, h₁) = guard-eq-ok (is_canonical_uint raw) non_canonical h in
    let (_, h₂) = guard-eq-ok (leb (read_digits 0 raw) max_safe_integer) unsafe_uint h₁ in
    let same = ok-injective h₂ in (read_digits 0 raw, cc)
decode_value-IsNatural hex32 raw h x is =
    let (_, h₁) = guard-eq-ok (is_hex32 raw) not_hex32 h in
    let same = ok-injective h₁ in absurd (cc)
decode_value-IsNatural string [] h x is = absurd (cc)
decode_value-IsNatural string (c ∷ cs) h x is = absurd (cc)

decode_message-IsNatural :
    (index : ℕ) (raw : Text) {assigned : ClaimName × ClaimValue}
    → decode_message index raw ≡ ok assigned
    → IsNatural assigned.1
unfolding decode_message
decode_message-IsNatural index raw h =
    let (name, _, h₁) = or_throw-eq-ok (get_elem? claim_specs index) not_in_schema _ h in
    let (parts, _, h₂) = or_throw-eq-ok (split raw) malformed _ h₁ in
    let (_, h₃) = guard-eq-ok (equal parts.0 (name_text name)) wrong_name h₂ in
    let (value, made, h₄) = >>=-eq-ok (decode_value (claim_kind name) parts.1) _ h₃ in
    subst (λ (a : ClaimName × ClaimValue). IsNatural a.1) (ok-injective h₄)
      (decode_value-IsNatural (claim_kind name) parts.1 made)

lookup-AreNatural :
    (assigned : ClaimName × ClaimValue) (rest : Decoded)
    → IsNatural assigned.1
    → AreNatural rest
    → AreNatural (assigned ∷ rest)
unfolding lookup
lookup-AreNatural (n, v) rest first later name x found = elim (Option-cases (lookup name rest)) [
  | inr (w, there) ↦
      let same : some w ≡ some (ClaimValue.number x) = ground (arith, there, found) in
      later name x (there ∙ same)
  | inl missing ↦ elim (Bool-cases (equal (name_text n) name)) [
    | inl here ↦
        let same : some v ≡ some (ClaimValue.number x) = ground (arith, missing, here, found) in
        first x cc
    | inr away ↦ absurd (ground (arith, missing, away, found))
  ]
]

pub decode_disclosed-AreNatural :
    (indexes : List ℕ) (messages : List Text) {decoded : Decoded}
    → decode_disclosed indexes messages ≡ ok decoded
    → AreNatural decoded
unfolding decode_disclosed lookup
decode_disclosed-AreNatural [] [] h = subst AreNatural (ok-injective h) nothing
  where
    nothing : AreNatural []
    nothing name x found = absurd (cc)
decode_disclosed-AreNatural (i ∷ indexes) (raw ∷ messages) h =
    let (_, h₁) = guard-eq-ok (length indexes == length messages) length_mismatch h in
    let (assigned, first, h₂) = >>=-eq-ok (decode_message i raw) _ h₁ in
    let (rest, later, h₃) = >>=-eq-ok (decode_disclosed indexes messages) _ h₂ in
    subst AreNatural (ok-injective h₃) (
      lookup-AreNatural assigned rest (decode_message-IsNatural i raw first)
        (decode_disclosed-AreNatural indexes messages later))
decode_disclosed-AreNatural [] (raw ∷ messages) h = absurd (cc)
decode_disclosed-AreNatural (i ∷ indexes) [] h = absurd (cc)
