-- ===== src/Identity/Predicates/Merge.antt =====
-- `allOf` of packages/identity/src/predicates.ts against the predicates that it merges.
use mathlib.Core.Path.{subst}
use stellar_onramp.Base.{
  ℕ, Bool, true, false, not, ◌||◌, List, [], ◌∷◌, ◌++◌, Option, none, some, ◌==◌, ==_iff, length,
  ◌≡◌, ◌⊎◌, refl, sym, ap, ◌∙◌, arith, inl, inr, Bool-cases, Option-cases, All, ok, guard-eq-ok,
  >>=-eq-ok, ok-injective, is_member, is_ascending, are_distinct, is_member-sort, sort-ascending,
}
use stellar_onramp.Identity.Schema.{ClaimName, claim_index, ClaimValue}
use stellar_onramp.Identity.Schema.Lookup.{claim_index-injective}
use stellar_onramp.Identity.Verify.Policy.{same_value}
use stellar_onramp.Identity.Verify.Permitted.{same_value_sound}
use stellar_onramp.Identity.Predicates.{
  Expected, Predicate, no_predicate, conflict, same_name, expected_of, expect_value, merge_expected,
  add_indexes, merge_all, all_of,
}

pub same_name_sound : (n m : ClaimName) → same_name n m ≡ true → n ≡ m
unfolding same_name
same_name_sound n m h = claim_index-injective n m ((==_iff (claim_index n) (claim_index m)).0 h)

pub same_name_self : (n : ClaimName) → same_name n n ≡ true
unfolding same_name
same_name_self n = (==_iff (claim_index n) (claim_index n)).1 refl

expected_of-append :
    (m : ClaimName) (ex new : Expected) {w : ClaimValue}
    → expected_of m ex ≡ some w
    → expected_of m (ex ++ new) ≡ some w
unfolding expected_of
expected_of-append m [] new h = absurd (cc)
expected_of-append m ((n, v) ∷ ex) new {w} h = elim (Bool-cases (same_name n m)) [
  | inl t ↦ ground (arith, t, h)
  | inr f ↦
      let later = expected_of-append m ex new {w = w} (ground (arith, f, h)) in
      ground (arith, f, later)
]

expected_of-append_new :
    (m : ClaimName) (ex new : Expected)
    → expected_of m ex ≡ none
    → expected_of m (ex ++ new) ≡ expected_of m new
unfolding expected_of
expected_of-append_new m [] new h = refl
expected_of-append_new m ((n, v) ∷ ex) new h = elim (Bool-cases (same_name n m)) [
  | inl t ↦ absurd (ground (arith, t, h))
  | inr f ↦
      let later = expected_of-append_new m ex new (ground (arith, f, h)) in ground (arith, f, later)
]

-- What was expected stays so.
abbrev Keeps : Expected → Expected → Type 0
Keeps ex ex' =
    (m : ClaimName) (w : ClaimValue) → expected_of m ex ≡ some w → expected_of m ex' ≡ some w

-- What is expected now was so before, or is one of these.
abbrev IsIn : ClaimName → ClaimValue → Expected → Type 0
IsIn m w [] = ⊥
IsIn m w ((n, v) ∷ rest) = ((n ≡ m) × (v ≡ w)) ⊎ IsIn m w rest

abbrev Adds : Expected → Expected → Expected → Type 0
Adds new ex ex' =
    (m : ClaimName) (w : ClaimValue)
    → expected_of m ex' ≡ some w
    → (expected_of m ex ≡ some w) ⊎ IsIn m w new

expected_of-IsIn :
    (m : ClaimName) (new : Expected) {w : ClaimValue} → expected_of m new ≡ some w → IsIn m w new
unfolding expected_of
expected_of-IsIn m [] h = absurd (cc)
expected_of-IsIn m ((n, v) ∷ new) {w} h = elim (Bool-cases (same_name n m)) [
  | inl t ↦ inl (same_name_sound n m t, ground (arith, t, h))
  | inr f ↦ inr (expected_of-IsIn m new (ground (arith, f, h)))
]

append-Adds : (ex new : Expected) → Adds new ex (ex ++ new)
append-Adds ex new m w h = elim (Option-cases (expected_of m ex)) [
  | inl missing ↦ inr (expected_of-IsIn m new (sym (expected_of-append_new m ex new missing) ∙ h))
  | inr (u, was) ↦
      let still = expected_of-append m ex new was in let e : u ≡ w = cc in inl (was ∙ ap some e)
]

expect_value_sound :
    (name : ClaimName) (value : ClaimValue) (ex : Expected) (before : Option ClaimValue)
    {ex' : Expected}
    → expected_of name ex ≡ before
    → expect_value name value before ex ≡ ok ex'
    → (expected_of name ex' ≡ some value) × Keeps ex ex' × Adds ((name, value) ∷ []) ex ex'
unfolding expect_value expected_of
expect_value_sound name value ex none missing h =
    let self = same_name_self name in
    subst
      (λ out. (expected_of name out ≡ some value) × Keeps ex out × Adds ((name, value) ∷ []) ex out)
      (ok-injective h)
      (
        expected_of-append_new name ex ((name, value) ∷ []) missing ∙ ground (arith, self),
        (λ m w is. expected_of-append m ex ((name, value) ∷ []) is),
        append-Adds ex ((name, value) ∷ []),
      )
expect_value_sound name value ex (some existing) was h =
    let (agrees, same) = guard-eq-ok (same_value existing value) conflict h in
    subst
      (λ out. (expected_of name out ≡ some value) × Keeps ex out × Adds ((name, value) ∷ []) ex out)
      (ok-injective same)
      (was ∙ ap some (same_value_sound existing value agrees), (λ m w is. is), λ m w is. inl is)

-- Each of these is expected.
abbrev pub AllExpected : Expected → Expected → Type 0
AllExpected ex new = All (λ e. expected_of e.0 ex ≡ some e.1) new

AllExpected-Keeps :
    (new ex ex' : Expected) → Keeps ex ex' → AllExpected ex new → AllExpected ex' new
AllExpected-Keeps [] ex ex' keeps all = tt
AllExpected-Keeps ((n, v) ∷ new) ex ex' keeps (here, all) =
    (keeps n v here, AllExpected-Keeps new ex ex' keeps all)

merge_expected_sound :
    (new ex : Expected) {ex' : Expected}
    → merge_expected new ex ≡ ok ex'
    → AllExpected ex' new × Keeps ex ex' × Adds new ex ex'
unfolding merge_expected
merge_expected_sound [] ex h =
    subst (λ out. AllExpected out [] × Keeps ex out × Adds [] ex out) (ok-injective h)
      (tt, (λ m w is. is), λ m w is. inl is)
merge_expected_sound ((name, value) ∷ new) ex {ex' = out} h =
    let (mid, one, h₁) = >>=-eq-ok (expect_value name value (expected_of name ex) ex) _ h in
    let (here, keeps, adds) = expect_value_sound name value ex (expected_of name ex) refl one in
    let (all, keeps', adds') = merge_expected_sound new mid h₁ in
    (
      (keeps' name value here, all),
      (λ m w is. keeps' m w (keeps m w is)),
      λ m w is. either mid m w adds (adds' m w is),
    )
  where
    either :
        (mid : Expected) (m : ClaimName) (w : ClaimValue)
        → Adds ((name, value) ∷ []) ex mid
        → (expected_of m mid ≡ some w) ⊎ IsIn m w new
        → (expected_of m ex ≡ some w) ⊎ IsIn m w ((name, value) ∷ new)
    either mid m w adds (inr in_new) = inr (inr in_new)
    either mid m w adds (inl mid_has) = elim (adds m w mid_has) [
      | inl was ↦ inl was
      | inr (inl same) ↦ inr (inl same)
      | inr (inr never) ↦ absurd never
    ]

-- One of the predicates expects this value.
abbrev pub IsAsked : ClaimName → ClaimValue → List Predicate → Type 0
IsAsked m w [] = ⊥
IsAsked m w (p ∷ ps) = IsIn m w p.expect ⊎ IsAsked m w ps

-- One of the predicates discloses this index.
unfoldable pub any_discloses : ℕ → List Predicate → Bool
any_discloses i [] = false
any_discloses i (p ∷ ps) = is_member i p.disclose || any_discloses i ps

add_indexes_sound :
    (is seen : List ℕ) (k : ℕ)
    → is_member k (add_indexes is seen) ≡ (is_member k is || is_member k seen)
unfolding add_indexes is_member
add_indexes_sound [] seen k = refl
add_indexes_sound (i ∷ is) seen k = elim (Bool-cases (is_member i seen)) [
  | inl t ↦
      let rest = add_indexes_sound is seen k in
      let same : (i == k) ≡ true → is_member k seen ≡ true =
        λ e. subst (λ j. is_member j seen ≡ true) ((==_iff i k).0 e) t in
      elim (Bool-cases (i == k)) [
        | inl e ↦ let there = same e in ground (arith, t, e, rest, there)
        | inr n ↦ ground (arith, t, n, rest)
      ]
  | inr f ↦ let rest = add_indexes_sound is (i ∷ seen) k in ground (arith, f, rest)
]

add_indexes-distinct :
    (is seen : List ℕ) → are_distinct seen ≡ true → are_distinct (add_indexes is seen) ≡ true
unfolding add_indexes are_distinct
add_indexes-distinct [] seen h = h
add_indexes-distinct (i ∷ is) seen h = elim (Bool-cases (is_member i seen)) [
  | inl t ↦ let rest = add_indexes-distinct is seen h in ground (arith, t, rest)
  | inr f ↦
      let rest = add_indexes-distinct is (i ∷ seen) (ground (arith, f, h)) in
      ground (arith, f, rest)
]

-- What `allOf` returns: every index of a predicate, and no other, in ascending order; every
-- expectation of a predicate, and no other.
pub record IsMerge (predicates : List Predicate) (merged : Predicate) : Type 0 where
  pub ascending : is_ascending merged.disclose ≡ true
  pub indexes : (i : ℕ) → is_member i merged.disclose ≡ any_discloses i predicates
  pub expects : All (λ p. AllExpected merged.expect p.expect) predicates
  pub only :
      (m : ClaimName) (w : ClaimValue)
      → expected_of m merged.expect ≡ some w
      → IsAsked m w predicates

merge_all-expects :
    (ps : List Predicate) (seen : List ℕ) (ex : Expected) {out : List ℕ × Expected}
    → merge_all ps seen ex ≡ ok out
    → All (λ p. AllExpected out.1 p.expect) ps
      × Keeps ex out.1
      × ((m : ClaimName) (w : ClaimValue)
          → expected_of m out.1 ≡ some w
          → (expected_of m ex ≡ some w) ⊎ IsAsked m w ps)
unfolding merge_all
merge_all-expects [] seen ex h =
    subst
      (λ (out : List ℕ × Expected).
        All (λ (p : Predicate). AllExpected out.1 p.expect) []
        × Keeps ex out.1
        × ((m : ClaimName) (w : ClaimValue)
            → expected_of m out.1 ≡ some w
            → (expected_of m ex ≡ some w) ⊎ IsAsked m w []))
      (ok-injective h) (tt, (λ m w is. is), λ m w is. inl is)
merge_all-expects (p ∷ ps) seen ex {out} h =
    let (mid, one, h₁) = >>=-eq-ok (merge_expected p.expect ex) _ h in
    let (here, keeps, adds) = merge_expected_sound p.expect ex one in
    let (all, keeps', adds') = merge_all-expects ps (add_indexes p.disclose seen) mid h₁ in
    (
      (AllExpected-Keeps p.expect mid out.1 keeps' here, all),
      (λ m w is. keeps' m w (keeps m w is)),
      λ m w is. elim (adds' m w is) [
        | inr later ↦ inr (inr later)
        | inl in_mid ↦ elim (adds m w in_mid) [ inl was ↦ inl was | inr now ↦ inr (inl now) ]
      ],
    )

merge_all-indexes :
    (ps : List Predicate) (seen : List ℕ) (ex : Expected) {out : List ℕ × Expected}
    → are_distinct seen ≡ true
    → merge_all ps seen ex ≡ ok out
    → (are_distinct out.0 ≡ true)
      × ((i : ℕ) → is_member i out.0 ≡ (any_discloses i ps || is_member i seen))
unfolding merge_all any_discloses
merge_all-indexes [] seen ex d h =
    subst
      (λ (out : List ℕ × Expected).
        (are_distinct out.0 ≡ true) × ((i : ℕ) → is_member i out.0 ≡ is_member i seen))
      (ok-injective h) (d, λ i. refl)
merge_all-indexes (p ∷ ps) seen ex d h =
    let (mid, one, h₁) = >>=-eq-ok (merge_expected p.expect ex) _ h in
    let (distinct, members) =
      merge_all-indexes ps (add_indexes p.disclose seen) mid
        (add_indexes-distinct p.disclose seen d) h₁ in
    (
      distinct,
      λ i.
          let later = members i in
          let now = add_indexes_sound p.disclose seen i in ground (arith, later, now),
    )

-- The predicate that `allOf` returns is the merge of those it was given: it discloses the indexes
-- that one of them discloses, each once and in ascending order, it expects what each of them expects,
-- and nothing that none of them expects.
pub all_of-IsMerge :
    (predicates : List Predicate) {merged : Predicate}
    → all_of predicates ≡ ok merged
    → IsMerge predicates merged
unfolding all_of is_member are_distinct expected_of
all_of-IsMerge predicates h =
    let (_, h₁) = guard-eq-ok (not (length predicates == 0)) no_predicate h in
    let (out, made, h₂) = >>=-eq-ok (merge_all predicates [] []) _ h₁ in
    let (distinct, members) = merge_all-indexes predicates [] [] refl made in
    let (all, _, only) = merge_all-expects predicates [] [] made in
    subst (IsMerge predicates) (ok-injective h₂) (record {
      ascending = sort-ascending out.0 distinct;
      indexes = λ i. let here = members i in is_member-sort i out.0 ∙ ground (arith, here);
      expects = all;
      only = λ m w is. elim (only m w is) [ inl was ↦ absurd (cc) | inr asked ↦ asked ];
    })
