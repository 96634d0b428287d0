-- ===== src/Identity/Predicates/Countries.antt =====
-- `countryAllowed` of packages/identity/src/predicates.ts.
use stellar_onramp.Base.{
  ℕ, Bool, true, false, not, ◌&&◌, ◌||◌, List, [], ◌∷◌, ◌++◌, Option, none, some, ltb, ◌==◌, ◌-◌,
  length, if◌then◌else◌, ◌≡◌, sym, ap, ◌∙◌, arith, inl, inr, Bool-cases, All, Result, ok, err,
  ◌>>=◌, ◌>>◌, guard, guard-eq-ok, >>=-eq-ok, ok-injective, Text, codes, within, includes, IsOneOf,
  includes-IsOneOf,
}
use stellar_onramp.Identity.Schema.{
  issuer_jurisdiction_policy, claim_index, jurisdiction_ok, boolean,
}
use stellar_onramp.Identity.Predicates.{
  Predicate, PredicateError, no_country_code, no_country, unsatisfiable, join_with,
}

abbrev pub is_letter : ℕ → Bool
is_letter c = within b'A' b'Z' c || within b'a' b'z' c

-- `toUpperCase()` of a letter
abbrev pub upper : ℕ → ℕ
upper c = if within b'a' b'z' c then c - 32 else c

-- /^[A-Za-z]{2}$/, and the code in upper case.
unfoldable pub country_code : Text → Result PredicateError Text
country_code (a ∷ b ∷ []) = do
  guard (is_letter a && is_letter b) no_country_code
  ok (upper a ∷ upper b ∷ [])
country_code _ = err no_country_code

unfoldable pub country_codes : List Text → Result PredicateError (List Text)
country_codes [] = ok []
country_codes (c ∷ cs) = do code ← country_code c; codes' ← country_codes cs; ok (code ∷ codes')

-- `normalize`
unfoldable pub normalize : List Text → Result PredicateError (List Text)
normalize list = do out ← country_codes list; guard (not (length out == 0)) no_country; ok out

-- `issuer.filter((c) => !rp.has(c))`
unfoldable pub missing : List Text → List Text → List Text
missing rp [] = []
missing rp (c ∷ cs) = let rest = missing rp cs in if includes rp c then rest else c ∷ rest

-- The order of `sort()` on strings.
unfoldable pub is_text_below : Text → Text → Bool
is_text_below [] _ = true
is_text_below (a ∷ as') [] = false
is_text_below (a ∷ as') (b ∷ bs) = ltb a b || (a == b && is_text_below as' bs)

-- `[...new Set(list)].sort()`
unfoldable pub insert_text : Text → List Text → List Text
insert_text t [] = t ∷ []
insert_text t (u ∷ us) = if is_text_below t u then t ∷ u ∷ us else u ∷ insert_text t us

unfoldable pub sort_unique : List Text → List Text
sort_unique [] = []
sort_unique (t ∷ ts) =
    let rest = sort_unique ts in if includes ts t then rest else insert_text t rest

-- `options.issuerPolicy ?? ISSUER_JURISDICTION_POLICY`
abbrev pub policy_or_default : Option (List Text) → List Text
policy_or_default none = issuer_jurisdiction_policy
policy_or_default (some policy) = policy

unfoldable pub country_allowed : List Text → Option (List Text) → Result PredicateError Predicate
country_allowed allowed policy = do
  rp ← normalize allowed
  issuer ← normalize (policy_or_default policy)
  guard (length (missing rp issuer) == 0) unsatisfiable
  ok (record {
    label = codes "countryAllowed(" ++ (join_with (codes ",") (sort_unique rp) ++ codes ")");
    disclose = claim_index jurisdiction_ok ∷ [];
    expect = (jurisdiction_ok, boolean true) ∷ [];
  })

missing-none :
    (rp issuer : List Text) → (length (missing rp issuer) == 0) ≡ true → All (IsOneOf rp) issuer
unfolding missing
missing-none rp [] h = tt
missing-none rp (c ∷ cs) h = elim (Bool-cases (includes rp c)) [
  | inl t ↦ (includes-IsOneOf rp c t, missing-none rp cs (ground (arith, t, h)))
  | inr f ↦ absurd (ground (arith, f, h))
]

-- `countryAllowed` returns a predicate only where every country that the issuer's policy vouches for
-- is, letter case aside, one of those that are allowed; the predicate discloses `jurisdictionOk`
-- alone, and expects it to be true.
pub country_allowed-covers :
    (allowed : List Text) (policy : Option (List Text)) {predicate : Predicate}
    → country_allowed allowed policy ≡ ok predicate
    → (rp : List Text) × (issuer : List Text) × (country_codes allowed ≡ ok rp)
      × (country_codes (policy_or_default policy) ≡ ok issuer)
      × All (IsOneOf rp) issuer
      × (predicate.disclose ≡ 10 ∷ [])
      × (predicate.expect ≡ (jurisdiction_ok, boolean true) ∷ [])
unfolding country_allowed normalize
country_allowed-covers allowed policy h =
    let (rp, of_allowed, h₁) = >>=-eq-ok (normalize allowed) _ h in
    let (issuer, of_policy, h₂) = >>=-eq-ok (normalize (policy_or_default policy)) _ h₁ in
    let (covered, h₃) = guard-eq-ok (length (missing rp issuer) == 0) unsatisfiable h₂ in
    let made = ok-injective h₃ in
    (
      rp,
      issuer,
      normalize-sound allowed of_allowed,
      normalize-sound (policy_or_default policy) of_policy,
      missing-none rp issuer covered,
      sym (ap (λ p. p.disclose) made),
      sym (ap (λ p. p.expect) made),
    )
  where
    normalize-sound :
        (list : List Text) {out : List Text} → normalize list ≡ ok out → country_codes list ≡ ok out
    normalize-sound list h =
        let (found, of, h₁) = >>=-eq-ok (country_codes list) _ h in
        let (_, h₂) = guard-eq-ok (not (length found == 0)) no_country h₁ in of ∙ h₂
