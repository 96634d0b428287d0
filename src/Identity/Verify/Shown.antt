-- ===== src/Identity/Verify/Shown.antt =====
-- `lookup` of Policy.antt in what a disclosure of a claim set decodes to.
use stellar_onramp.Base.{
  ℕ, true, false, List, [], ◌∷◌, some, map, ◌==◌, ◌≡◌, refl, sym, ap, ◌∙◌, arith, inl, inr,
  Bool-cases, Option-cases, ok, >>=-eq-ok, nat, negsuc, non_integer, Text, equal, equal_iff,
  equal_self, is_member,
}
use stellar_onramp.Identity.Schema.{
  ClaimName, ClaimKind, string, hex32, uint, bool, name_text, claim_index, claim_specs, claim_kind,
  ClaimValue, Claims, encode_value, encode_claim, encode_claims,
}
use stellar_onramp.Identity.Schema.Lookup.{name_text-injective, claim_index-injective}
use stellar_onramp.Identity.Schema.RoundTrip.{Shows, encode_each-get, get_elem?-claim_specs}
use stellar_onramp.Identity.Verify.Policy.{Decoded, lookup, same_number, same_value}

-- A value that is found is that of the claims.
pub lookup-Shows :
    (claims : Claims) (names : List ClaimName) (decoded : Decoded) (m : ClaimName) {v : ClaimValue}
    → Shows claims names decoded
    → lookup (name_text m) decoded ≡ some v
    → claims m ≡ some v
unfolding lookup
lookup-Shows claims [] [] m shows h = absurd (cc)
lookup-Shows claims [] (d ∷ decoded) m shows h = absurd shows
lookup-Shows claims (n ∷ names) [] m shows h = absurd shows
lookup-Shows claims (n ∷ names) ((n', w) ∷ decoded) m {v} (same, given, shows) h =
    elim (Option-cases (lookup (name_text m) decoded)) [
      | inr (u, found) ↦
          lookup-Shows claims names decoded m shows
            (found ∙ (let e : u ≡ v = ground (arith, found, h) in ap some e))
      | inl missing ↦ elim (Bool-cases (equal (name_text n') (name_text m))) [
        | inr other ↦ absurd (ground (arith, missing, other, h))
        | inl alike ↦
            let e : w ≡ v = ground (arith, missing, alike, h) in
            let name : n' ≡ m =
              name_text-injective n' m ((equal_iff (name_text n') (name_text m)).0 alike) in
            ap claims (sym (sym same ∙ name)) ∙ given ∙ ap some e
      ]
    ]

-- An attribute that is disclosed is found.
pub lookup-found :
    (claims : Claims) (names : List ClaimName) (decoded : Decoded) (m : ClaimName) {v : ClaimValue}
    → Shows claims names decoded
    → is_member (claim_index m) (map claim_index names) ≡ true
    → claims m ≡ some v
    → lookup (name_text m) decoded ≡ some v
unfolding lookup is_member
lookup-found claims [] [] m shows among h = absurd (ground (arith, among))
lookup-found claims [] (d ∷ decoded) m shows among h = absurd shows
lookup-found claims (n ∷ names) [] m shows among h = absurd shows
lookup-found claims (n ∷ names) ((n', w) ∷ decoded) m {v} (same, given, shows) among h =
    elim (Option-cases (lookup (name_text m) decoded)) [
      | inr (u, found) ↦
          let value = lookup-Shows claims names decoded m shows found in
          let e : u ≡ v = cc in ground (arith, found, e)
      | inl missing ↦ elim (Bool-cases (claim_index n == claim_index m)) [
        | inl alike ↦
            let name : n' ≡ m = same ∙ claim_index-injective n m (ground (arith, alike)) in
            let text : equal (name_text n') (name_text m) ≡ true =
              (equal_iff (name_text n') (name_text m)).1 (ap name_text name) in
            let value : w ≡ v = ground_value (sym given ∙ ap claims (sym same ∙ name) ∙ h) in
            ground (arith, missing, text, value)
        | inr other ↦
            let found =
              lookup-found claims names decoded m shows (ground (arith, other, among)) h in
            absurd (cc)
      ]
    ]
  where
    ground_value : {a b : ClaimValue} → some a ≡ some b → a ≡ b
    ground_value e = cc

same_number_self : (n : ℕ) → same_number (nat n) (nat n) ≡ true
same_number_self n = ground arith

same_value-encoded :
    (kind : ClaimKind) (v : ClaimValue) {t : Text}
    → encode_value kind v ≡ ok t
    → same_value v v ≡ true
unfolding encode_value
same_value-encoded kind (ClaimValue.text t) h = equal_self t
same_value-encoded kind (ClaimValue.boolean true) h = refl
same_value-encoded kind (ClaimValue.boolean false) h = refl
same_value-encoded kind (ClaimValue.number (nat n)) h = same_number_self n
same_value-encoded bool (ClaimValue.number n) h = absurd (cc)
same_value-encoded hex32 (ClaimValue.number n) h = absurd (cc)
same_value-encoded string (ClaimValue.number n) h = absurd (cc)
same_value-encoded uint (ClaimValue.number (negsuc n)) h = absurd (cc)
same_value-encoded uint (ClaimValue.number non_integer) h = absurd (cc)

-- Each attribute of claims that are encoded has a value, which equals itself.
pub encoded-value :
    (claims : Claims) (name : ClaimName) {messages : List Text}
    → encode_claims claims ≡ ok messages
    → (v : ClaimValue) × (claims name ≡ some v) × (same_value v v ≡ true)
unfolding encode_claims encode_claim
encoded-value claims name h =
    let (v, given, encoded) =
      encode_each-get claim_specs claims (claim_index name) name h (get_elem?-claim_specs name) in
    let (_, e, _) = >>=-eq-ok (encode_value (claim_kind name) v) _ encoded in
    (v, given, same_value-encoded (claim_kind name) v e)
