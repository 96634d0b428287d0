-- ===== src/Identity/Verify/Honest.antt =====
-- `verifyDetailed` on an honest presentation, with every check on.
use mathlib.Core.Path.{subst}
use stellar_onramp.Base.{
  ℕ, ◌+◌, ◌≤◌, true, false, List, [], ◌∷◌, Option, none, some, map, leb, ◌≡◌, refl, sym, ap, ◌∙◌,
  arith, inl, inr, Option-cases, ok, guard, le→leb, Number, nat, whole, Bytes, Text, equal_self,
  is_member, includes, All, ok-injective,
}
use stellar_onramp.Identity.Hashes.{Hashes}
use stellar_onramp.Identity.Bbs.{Bbs, IsBbs}
use stellar_onramp.Identity.Gzip.{GzipStreams}
use stellar_onramp.Identity.Bits.{status_at}
use stellar_onramp.Identity.Schema.{
  ClaimName, name_text, ClaimValue, claim_index, Claims, encode_claims, normalize_indexes,
}
use stellar_onramp.Identity.Schema.Indexes.{name_at, indexes_of-names}
use stellar_onramp.Identity.Schema.RoundTrip.{Shows}
use stellar_onramp.Identity.StatusList.{
  StatusListValue, DecodedStatusList, revocation, decode_status_list,
}
use stellar_onramp.Identity.Binding.{ProofBinding, binding_digest_hex}
use stellar_onramp.Identity.Binding.Canonical.{assert-IsValid}
use stellar_onramp.Identity.ReplayGuard.{ReplayGuard, consume_key, consume}
use stellar_onramp.Identity.Credential.{
  KycClaims, claims_of, Credential, Proof, schema_version_text, issuer_id_from_public_key, issue,
  derive,
}
use stellar_onramp.Identity.Credential.Issued.{issue-IsIssued, derive-IsDerived}
use stellar_onramp.Identity.Verify.Policy.{
  list, entries, Decoded, lookup, number_of, agrees, has_started, check_time, check_subject,
  check_entries, check_expected, check_status, check_policy,
}
use stellar_onramp.Identity.Verify.Shown.{lookup-Shows, lookup-found, encoded-value}
use stellar_onramp.Identity.Verify.Complete.{check_presentation_complete}
use stellar_onramp.Identity.Verify.{
  indexes, VerifyOptions, check_ledger, answer, conclude, judge, verify_detailed,
}

agrees-Shows :
    (claims : Claims) (names : List ClaimName) (decoded : Decoded) (m : ClaimName) (t : Text)
    → Shows claims names decoded
    → claims m ≡ some (ClaimValue.text t)
    → agrees (lookup (name_text m) decoded) t ≡ true
agrees-Shows claims names decoded m t shows is =
    elim (Option-cases (lookup (name_text m) decoded)) [
      | inl missing ↦ ap (λ o. agrees o t) missing
      | inr (v, found) ↦
          let value : v ≡ ClaimValue.text t =
            some-eq (sym (lookup-Shows claims names decoded m shows found) ∙ is) in
          ap (λ o. agrees o t) (found ∙ ap some value) ∙ equal_self t
    ]
  where
    some-eq : {a b : ClaimValue} → some a ≡ some b → a ≡ b
    some-eq e = cc

check_time-within :
    (time end start : ℕ) (decoded : Decoded)
    → lookup (name_text ClaimName.expires_at) decoded ≡ some (ClaimValue.number (nat end))
    → time ≤ end
    → start ≤ time + 300
    → ((v : ClaimValue)
        → lookup (name_text ClaimName.issued_at) decoded ≡ some v
        → v ≡ ClaimValue.number (nat start))
    → check_time (some (whole time)) decoded ≡ ok tt
unfolding check_time
check_time-within time end start decoded shown before begun issued =
    let ends : leb time end ≡ true = le→leb time end before in
    let starts : leb start (time + 300) ≡ true = le→leb start (time + 300) begun in
    let started = has_started-shown in ground (arith, shown, ends, started starts)
  where
    has_started-shown :
        leb start (time + 300) ≡ true
        → has_started (whole time) (number_of (lookup (name_text ClaimName.issued_at) decoded))
          ≡ true
    has_started-shown starts =
        elim (Option-cases (lookup (name_text ClaimName.issued_at) decoded)) [
          | inl missing ↦ ap (λ o. has_started (whole time) (number_of o)) missing
          | inr (v, found) ↦
              ap (λ o. has_started (whole time) (number_of o)) (found ∙ ap some (issued v found))
              ∙ starts
        ]

-- Expecting the values of the claims, where they are disclosed.
check_entries-Shows :
    (claims : Claims) (names : List ClaimName) (decoded : Decoded) (expected : List ClaimName)
    {messages : List Text}
    → encode_claims claims ≡ ok messages
    → Shows claims names decoded
    → All (λ n. is_member (claim_index n) (map claim_index names) ≡ true) expected
    → check_entries (map (λ n. (name_text n, claims n)) expected) decoded ≡ ok tt
unfolding check_entries
check_entries-Shows claims names decoded [] encoded shows among = refl
check_entries-Shows claims names decoded (n ∷ expected) encoded shows (here, among) =
    let (v, given, self) = encoded-value claims n encoded in
    let found = lookup-found claims names decoded n shows here given in
    let rest = check_entries-Shows claims names decoded expected encoded shows among in
    ap (λ o. check_entries ((name_text n, o) ∷ map (λ n. (name_text n, claims n)) expected) decoded)
      given
    ∙ ground (arith, found, self, rest)

-- The options of a verifier that switches no check off.
abbrev pub strict_options :
    ℕ
    → ℕ
    → Text
    → StatusListValue
    → ReplayGuard
    → List (Text × Option ClaimValue)
    → List Number
    → VerifyOptions
strict_options ledger time subject value guard expected revealed = record {
  current_ledger = some (nat ledger);
  current_time = some (whole time);
  expected_subject_binding = some subject;
  status_list = some (list value);
  replay_guard = some guard;
  status_purpose = none;
  expected_claims = some (entries expected);
  expected_disclosed_indexes = some (indexes revealed);
}

-- The policy of those options, on what was disclosed of the claims.
check_policy_complete :
    (streams : GzipStreams) (issuer : Text) (claims : KycClaims) (names : List ClaimName)
    (decoded : Decoded) (time end start : ℕ) (value : StatusListValue) (bits : DecodedStatusList)
    (expected : List ClaimName) {messages : List Text}
    → encode_claims (claims_of claims) ≡ ok messages
    → Shows (claims_of claims) names decoded
    → All (λ i. is_member i (map claim_index names) ≡ true) (2 ∷ 4 ∷ 5 ∷ [])
    → All (λ n. is_member (claim_index n) (map claim_index names) ≡ true) expected
    → claims.schema_version ≡ schema_version_text
    → claims.issuer_id ≡ issuer
    → claims.expires_at ≡ nat end
    → time ≤ end
    → claims.issued_at ≡ nat start
    → start ≤ time + 300
    → decode_status_list streams value (some revocation) ≡ ok bits
    → status_at bits.bitstring claims.revocation_index ≡ ok 0
    → check_policy streams issuer
        (some (whole time))
        (some claims.subject_binding)
        (some (entries (map (λ n. (name_text n, claims_of claims n)) expected)))
        (some (list value))
        none
        decoded
      ≡ ok decoded
unfolding check_policy check_expected check_subject check_status claims_of
check_policy_complete streams issuer claims names decoded time end start value bits expected encoded
      shows (m₂, (m₄, (m₅, _))) among version by ends before starts begun listed clear =
    let versioned =
      agrees-Shows (claims_of claims) names decoded ClaimName.schema_version schema_version_text
        shows (ap (λ t. some (ClaimValue.text t)) version) in
    let issued =
      agrees-Shows (claims_of claims) names decoded ClaimName.issuer_id issuer shows
        (ap (λ t. some (ClaimValue.text t)) by) in
    let index =
      lookup-found (claims_of claims) names decoded ClaimName.revocation_index shows m₂ refl in
    let expires =
      lookup-found (claims_of claims) names decoded ClaimName.expires_at shows m₄
        (ap (λ n. some (ClaimValue.number n)) ends) in
    let subject =
      lookup-found (claims_of claims) names decoded ClaimName.subject_binding shows m₅ refl in
    let same = equal_self claims.subject_binding in
    let timely = check_time-within time end start decoded expires before begun (λ v found.
      value_eq (
        sym (lookup-Shows (claims_of claims) names decoded ClaimName.issued_at shows found)
        ∙ ap (λ n. some (ClaimValue.number n)) starts)) in
    let agreed =
      check_entries-Shows (claims_of claims) names decoded expected encoded shows among in
    ground (arith, versioned, issued, index, subject, same, timely, agreed, listed, clear)
  where
    value_eq : {a b : ClaimValue} → some a ≡ some b → a ≡ b
    value_eq e = cc

consume_key-fresh :
    (guard : ReplayGuard) (key : Text)
    → includes guard.consumed key ≡ false
    → (consume_key guard (ok key)).1 ≡ ok true
consume_key-fresh guard key unseen = ground (arith, unseen)

conclude-fresh :
    (hashes : Hashes) (b : ProofBinding) (guard : ReplayGuard) (decoded : Decoded) {digest : Text}
    → binding_digest_hex hashes b ≡ ok digest
    → includes guard.consumed digest ≡ false
    → (conclude hashes b (some guard) (ok decoded)).1 ≡ ok decoded
unfolding consume
conclude-fresh hashes b guard decoded {digest} made unseen =
    ap (answer decoded)
      (ap (λ r. (consume_key guard r).1) made ∙ consume_key-fresh guard digest unseen)

-- An honest presentation is accepted with every check on. Where an issuer issued a credential for
-- its claims and the holder derived a proof of some attributes from it, with the indexes 2, 4 and 5
-- among them, then a verifier with the issuer's key and the same binding accepts that proof and
-- reads the values of the claims from it: the ledger is not past the binding's, the time lies in the
-- credential's, the subject and the expected claims are the credential's, the status list decodes to
-- 0 at its index, and the replay guard has not seen the binding. It is relied on that derived proofs
-- verify.
pub verify_detailed_complete :
    (hashes : Hashes) (bbs : Bbs) (streams : GzipStreams) (claims : KycClaims) (secret_key : Bytes)
    (credential : Credential) (revealed : List Number) (b : ProofBinding) (proof : Proof)
    (disclosed : List ℕ) (ledger expiry time end start : ℕ) (value : StatusListValue)
    (bits : DecodedStatusList) (replay : ReplayGuard) (digest : Text) (expected : List ClaimName)
    → IsBbs bbs
    → issue hashes bbs claims secret_key ≡ ok credential
    → derive hashes bbs credential revealed b ≡ ok proof
    → normalize_indexes revealed ≡ ok disclosed
    → All (λ i. is_member i disclosed ≡ true) (2 ∷ 4 ∷ 5 ∷ [])
    → All (λ n. is_member (claim_index n) disclosed ≡ true) expected
    → b.ledger_expiry ≡ nat expiry
    → ledger ≤ expiry
    → claims.expires_at ≡ nat end
    → time ≤ end
    → claims.issued_at ≡ nat start
    → start ≤ time + 300
    → decode_status_list streams value (some revocation) ≡ ok bits
    → status_at bits.bitstring claims.revocation_index ≡ ok 0
    → binding_digest_hex hashes b ≡ ok digest
    → includes replay.consumed digest ≡ false
    → (decoded : Decoded) × ((verify_detailed hashes bbs streams proof credential.issuer_public_key
          b
          (strict_options ledger time claims.subject_binding value replay
            (map (λ n. (name_text n, claims_of claims n)) expected)
            revealed)).1
        ≡ ok decoded)
      × Shows (claims_of claims) (map name_at disclosed) decoded
unfolding verify_detailed judge check_ledger
verify_detailed_complete hashes bbs streams claims secret_key credential revealed b proof disclosed
      ledger expiry time end start value bits replay digest expected lawful issued_h derived_h
      normal audited among bounded timely ends before starts begun listed clear digested unseen =
    let options =
      strict_options ledger time claims.subject_binding value replay
        (map (λ n. (name_text n, claims_of claims n)) expected) revealed in
    let issued = issue-IsIssued hashes bbs claims secret_key issued_h in
    let made = derive-IsDerived hashes bbs credential revealed b derived_h in
    let disclosed_is : made.disclosed ≡ disclosed = ok-injective (sym made.normal ∙ normal) in
    let expiry_is : nat expiry ≡ nat made.expiry =
      sym bounded ∙ (assert-IsValid b made.valid).expiry_h in
    let within : leb ledger made.expiry ≡ true = ground (arith, timely, expiry_is) in
    let (decoded, presented, shows, below) =
      check_presentation_complete hashes bbs claims secret_key credential revealed b proof options
        lawful issued made (ground (arith, within)) refl in
    let names = map name_at made.disclosed in
    let at : disclosed ≡ map claim_index names =
      sym disclosed_is ∙ sym (indexes_of-names made.disclosed below) in
    let policy =
      check_policy_complete streams
        (issuer_id_from_public_key hashes bbs credential.issuer_public_key) claims names decoded
        time end start value bits expected issued.encoded shows
        (subst (λ is. All (λ i. is_member i is ≡ true) (2 ∷ 4 ∷ 5 ∷ [])) at audited)
        (subst (λ is. All (λ n. is_member (claim_index n) is ≡ true) expected) at among)
        issued.claims_version issued.names_key ends before starts begun listed clear in
    let judged : judge hashes bbs streams proof credential.issuer_public_key b options
        ≡ ok decoded =
      ground (arith, presented, policy) in
    (
      decoded,
      ap (λ r. (conclude hashes b (some replay) r).1) judged
          ∙ conclude-fresh hashes b replay decoded digested unseen,
      subst (λ is. Shows (claims_of claims) (map name_at is) decoded) disclosed_is shows,
    )
