-- ===== src/Identity/Predicates/Gate.antt =====
-- `gatePredicateFor` of packages/identity/src/predicates.ts: what the gate demands.
use mathlib.Core.Path.{subst}
use stellar_onramp.Base.{
  true, not, ◌||◌, List, [], ◌∷◌, some, ◌==◌, length, ◌≡◌, sym, ap, ◌∙◌, arith, inl, inr,
  Bool-cases, All, ok, guard-eq-ok, >>=-eq-ok, ok-injective, is_member,
}
use stellar_onramp.Identity.Schema.{ClaimName, claim_index, boolean}
use stellar_onramp.Identity.Predicates.{
  Expected, Predicate, not_disclosable, no_claim, claim_is_true, credential_audit, same_name,
  is_disclosable, claim_predicate, expected_of, is_name_among, unique_names, claim_predicates,
  gate_predicate_for,
}
use stellar_onramp.Identity.Predicates.Merge.{
  AllExpected, any_discloses, all_of-IsMerge, same_name_sound,
}

is_name_among_unique :
    (n : ClaimName) (before names : List ClaimName)
    → is_name_among n names ≡ true
    → (is_name_among n before || is_name_among n (unique_names before names)) ≡ true
unfolding is_name_among unique_names
is_name_among_unique n before [] h = absurd (cc)
is_name_among_unique n before (m ∷ names) h = elim (Bool-cases (same_name m n)) [
  | inl t ↦ elim (Bool-cases (is_name_among m before)) [
    | inl old ↦
        let there : is_name_among n before ≡ true =
          subst (λ k. is_name_among k before ≡ true) (same_name_sound m n t) old in
        ground (arith, there)
    | inr new ↦ ground (arith, new, t)
  ]
  | inr f ↦
      let later = is_name_among_unique n (m ∷ before) names (ground (arith, f, h)) in
      elim (Bool-cases (is_name_among m before)) [
        | inl old ↦ ground (arith, old, f, later)
        | inr new ↦ ground (arith, new, f, later)
      ]
]

claim_predicates-demand :
    (names : List ClaimName) (n : ClaimName) {ps : List Predicate}
    → is_name_among n names ≡ true
    → claim_predicates names ≡ ok ps
    → (any_discloses (claim_index n) ps ≡ true)
      × ((ex : Expected)
          → All (λ p. AllExpected ex p.expect) ps
          → expected_of n ex ≡ some (boolean true))
unfolding is_name_among claim_predicates claim_predicate any_discloses is_member
claim_predicates-demand [] n h made = absurd (cc)
claim_predicates-demand (m ∷ names) n {ps} h made =
    let (p, one, h₁) = >>=-eq-ok (claim_predicate m) _ made in
    let (rest, others, h₂) = >>=-eq-ok (claim_predicates names) _ h₁ in
    let (_, only) = guard-eq-ok (is_disclosable m) not_disclosable one in
    let p_is : claim_is_true m ≡ p = ok-injective only in
    subst
      (λ ps.
        (any_discloses (claim_index n) ps ≡ true)
        × ((ex : Expected)
            → All (λ p. AllExpected ex p.expect) ps
            → expected_of n ex ≡ some (boolean true)))
      (ap (λ p. p ∷ rest) p_is ∙ ok-injective h₂)
      (elim (Bool-cases (same_name m n)) [
        | inl t ↦ first rest (same_name_sound m n t)
        | inr f ↦
            let (there, demanded) = claim_predicates-demand names n (ground (arith, f, h)) others in
            (ground (arith, there), λ ex all. demanded ex all.1)
      ])
  where
    first :
        {m n : ClaimName} (rest : List Predicate)
        → m ≡ n
        → (any_discloses (claim_index n) (claim_is_true m ∷ rest) ≡ true)
          × ((ex : Expected)
              → All (λ p. AllExpected ex p.expect) (claim_is_true m ∷ rest)
              → expected_of n ex ≡ some (boolean true))
    first {m} {n} rest same =
        let index : (claim_index m == claim_index n) ≡ true = ground (arith, ap claim_index same) in
        (ground (arith, index), λ ex all. ap (λ k. expected_of k ex) (sym same) ∙ all.0.0)

-- The predicate of a gate discloses the attributes by which a verifier checks revocation, expiry and
-- subject, and for every claim that was named, its index, with the expectation that it is true.
pub gate_predicate_for-demands :
    (names : List ClaimName) (n : ClaimName) {gate : Predicate}
    → gate_predicate_for names ≡ ok gate
    → is_name_among n names ≡ true
    → All (λ i. is_member i gate.disclose ≡ true) (0 ∷ 1 ∷ 2 ∷ 3 ∷ 4 ∷ 5 ∷ [])
      × (is_member (claim_index n) gate.disclose ≡ true)
      × (expected_of n gate.expect ≡ some (boolean true))
unfolding gate_predicate_for any_discloses is_member is_name_among
gate_predicate_for-demands names n {gate} h among =
    let (_, h₁) = guard-eq-ok (not (length (unique_names [] names) == 0)) no_claim h in
    let (ps, made, h₂) = >>=-eq-ok (claim_predicates (unique_names [] names)) _ h₁ in
    let merged = all_of-IsMerge (credential_audit ∷ ps) h₂ in
    let kept : is_name_among n (unique_names [] names) ≡ true =
      is_name_among_unique n [] names among in
    let (there, demanded) = claim_predicates-demand (unique_names [] names) n kept made in
    let found = merged.indexes (claim_index n) in
    (
      (
        merged.indexes 0,
        (
          merged.indexes 1,
          (merged.indexes 2, (merged.indexes 3, (merged.indexes 4, (merged.indexes 5, tt)))),
        ),
      ),
      ground (arith, found, there),
      demanded gate.expect merged.expects.1,
    )
