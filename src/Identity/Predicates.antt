-- ===== src/Identity/Predicates.antt =====
-- packages/identity/src/predicates.ts. The indexes of a predicate are natural numbers, its values
-- strings, numbers and booleans; the names of claims are those of the schema.
pub mod Merge
pub mod Countries
pub mod Gate
pub mod Checked
use stellar_onramp.Base.{
  ℕ, Bool, true, false, not, ◌&&◌, ◌||◌, List, [], ◌∷◌, ◌++◌, Option, none, some, map, ltb, leb,
  ◌==◌, ◌+◌, ◌-◌, length, if◌then◌else◌, Result, ok, err, ◌>>=◌, ◌>>◌, guard, Number, nat, Bytes,
  Text, codes, within, equal, includes, is_member, sort,
}
use stellar_onramp.Identity.Hashes.{Hashes}
use stellar_onramp.Identity.Bbs.{Bbs}
use stellar_onramp.Identity.Gzip.{GzipStreams}
use stellar_onramp.Identity.Schema.{
  ClaimName, schema_version, issuer_id, revocation_index, issued_at, expires_at, subject_binding,
  over18, over21, not_sanctioned, not_pep, jurisdiction_ok, liveness_ok, name_text, claim_index,
  ClaimValue, text, boolean,
}
use stellar_onramp.Identity.Binding.{ProofBinding}
use stellar_onramp.Identity.ReplayGuard.{ReplayGuard}
use stellar_onramp.Identity.Credential.{
  Credential, Proof, CredentialError, schema_version_text, derive,
}
use stellar_onramp.Identity.Verify.Policy.{
  VerifyFailure, disclosure_shape, entries, Decoded, same_value,
}
use stellar_onramp.Identity.Verify.{Disclosure, indexes, VerifyOptions, verify_detailed}

-- The values by name, in the order in which they were set.
abbrev pub Expected : Type 0
Expected = List (ClaimName × ClaimValue)

pub record Predicate : Type 0 where
  pub label : Text
  pub disclose : List ℕ
  pub expect : Expected

pub data PredicateError : Type 0 where
  not_disclosable no_claim no_country_code no_country unsatisfiable : PredicateError
  no_predicate conflict : PredicateError

-- A predicate that a claim is true.
abbrev pub claim_is_true : ClaimName → Predicate
claim_is_true name = record {
  label = name_text name;
  disclose = claim_index name ∷ [];
  expect = (name, boolean true) ∷ [];
}

abbrev pub is_over18 : Predicate
is_over18 = claim_is_true over18

abbrev pub is_over21 : Predicate
is_over21 = claim_is_true over21

abbrev pub is_not_sanctioned : Predicate
is_not_sanctioned = claim_is_true not_sanctioned

abbrev pub is_not_pep : Predicate
is_not_pep = claim_is_true not_pep

abbrev pub is_liveness_ok : Predicate
is_liveness_ok = claim_is_true liveness_ok

unfoldable pub same_name : ClaimName → ClaimName → Bool
same_name n m = claim_index n == claim_index m

-- `DISCLOSABLE_CLAIM_NAMES.includes(name)`
abbrev pub is_disclosable : ClaimName → Bool
is_disclosable over18 = true
is_disclosable over21 = true
is_disclosable not_sanctioned = true
is_disclosable not_pep = true
is_disclosable jurisdiction_ok = true
is_disclosable liveness_ok = true
is_disclosable _ = false

unfoldable pub claim_predicate : ClaimName → Result PredicateError Predicate
claim_predicate name = do guard (is_disclosable name) not_disclosable; ok (claim_is_true name)

-- `expect[key]`
unfoldable pub expected_of : ClaimName → Expected → Option ClaimValue
expected_of name [] = none
expected_of name ((n, v) ∷ rest) =
    let later = expected_of name rest in if same_name n name then some v else later

-- `expect[key] = value` after the test on what was there.
unfoldable pub expect_value :
    ClaimName → ClaimValue → Option ClaimValue → Expected → Result PredicateError Expected
expect_value name value none expected = ok (expected ++ ((name, value) ∷ []))
expect_value name value (some existing) expected = do
  guard (same_value existing value) conflict
  ok expected

-- The inner loop over the expectations of one predicate.
unfoldable pub merge_expected : Expected → Expected → Result PredicateError Expected
merge_expected [] expected = ok expected
merge_expected ((name, value) ∷ rest) expected = do
  expected' ← expect_value name value (expected_of name expected) expected
  merge_expected rest expected'

-- `disclose.add(idx)`, the last in front.
abbrev pub add_index : ℕ → List ℕ → List ℕ
add_index i seen = if is_member i seen then seen else i ∷ seen

unfoldable pub add_indexes : List ℕ → List ℕ → List ℕ
add_indexes [] seen = seen
add_indexes (i ∷ is) seen = add_indexes is (add_index i seen)

-- The loop over the predicates.
unfoldable pub merge_all :
    List Predicate → List ℕ → Expected → Result PredicateError (List ℕ × Expected)
merge_all [] disclose expected = ok (disclose, expected)
merge_all (p ∷ ps) disclose expected = do
  expected' ← merge_expected p.expect expected
  merge_all ps (add_indexes p.disclose disclose) expected'

-- `labels.join(separator)`
unfoldable pub join_with : Text → List Text → Text
join_with separator [] = []
join_with separator (t ∷ []) = t
join_with separator (t ∷ u ∷ ts) = t ++ (separator ++ join_with separator (u ∷ ts))

unfoldable pub all_of : List Predicate → Result PredicateError Predicate
all_of predicates = do
  guard (not (length predicates == 0)) no_predicate
  merged ← merge_all predicates [] []
  ok (record {
    label = join_with (codes " AND ") (map (λ p. p.label) predicates);
    disclose = sort merged.0;
    expect = merged.1;
  })

abbrev pub credential_audit : Predicate
credential_audit = record {
  label = codes "credentialAudit";
  disclose =
      claim_index schema_version
      ∷ claim_index issuer_id
      ∷ claim_index revocation_index
      ∷ claim_index issued_at
      ∷ claim_index expires_at
      ∷ claim_index subject_binding
      ∷ [];
  expect = (schema_version, text schema_version_text) ∷ [];
}

abbrev pub standard_onramp_predicate : Result PredicateError Predicate
standard_onramp_predicate = all_of (is_over18 ∷ is_not_sanctioned ∷ [])

abbrev pub gate_onramp_predicate : Result PredicateError Predicate
gate_onramp_predicate = all_of (credential_audit ∷ is_over18 ∷ is_not_sanctioned ∷ [])

-- `new Set(names)`: the first occurrence of each name, given those before.
unfoldable pub is_name_among : ClaimName → List ClaimName → Bool
is_name_among name [] = false
is_name_among name (n ∷ ns) = same_name n name || is_name_among name ns

unfoldable pub unique_names : List ClaimName → List ClaimName → List ClaimName
unique_names before [] = []
unique_names before (n ∷ ns) =
    let rest = unique_names (n ∷ before) ns in if is_name_among n before then rest else n ∷ rest

unfoldable pub claim_predicates : List ClaimName → Result PredicateError (List Predicate)
claim_predicates [] = ok []
claim_predicates (n ∷ ns) = do p ← claim_predicate n; ps ← claim_predicates ns; ok (p ∷ ps)

unfoldable pub gate_predicate_for : List ClaimName → Result PredicateError Predicate
gate_predicate_for names = do
  guard (not (length (unique_names [] names) == 0)) no_claim
  predicates ← claim_predicates (unique_names [] names)
  all_of (credential_audit ∷ predicates)

-- `want.some((v, i) => v !== got[i])`, negated, with the test of the lengths before.
unfoldable pub discloses : List ℕ → List Number → Bool
discloses [] [] = true
discloses (v ∷ want) (nat i ∷ got) = v == i && discloses want got
discloses _ _ = false

-- `{...options, expectedClaims: predicate.expect, expectedDisclosedIndexes: want}`
abbrev pub with_predicate : Predicate → VerifyOptions → VerifyOptions
with_predicate predicate options = record options {
  expected_claims = some (entries (map (λ e. (name_text e.0, some e.1)) predicate.expect));
  expected_disclosed_indexes = some (indexes (map nat (sort predicate.disclose)));
}

module _ (hashes : Hashes) (bbs : Bbs) where
  unfoldable pub prove : Credential → Predicate → ProofBinding → Result CredentialError Proof
  prove credential predicate binding_of =
      derive hashes bbs credential (map nat predicate.disclose) binding_of

  unfoldable pub check_predicate :
      GzipStreams
      → Proof
      → Predicate
      → Bytes
      → ProofBinding
      → VerifyOptions
      → Option ReplayGuard × Result VerifyFailure Decoded
  check_predicate streams proof predicate key expected options =
      if discloses (sort predicate.disclose) proof.disclosed_indexes
      then verify_detailed hashes bbs streams proof key expected (with_predicate predicate options)
      else (options.replay_guard, err disclosure_shape)
