-- ===== src/Gateway/Kyc/Issue/Consistent.antt =====
-- What `issueKycCredential` (packages/gateway/src/kyc/issue.ts) returns.
use mathlib.Core.Path.{subst}
use stellar_onramp.Base.{
  ℕ, ◌<◌, not, ◌==◌, ltb, leb, length, Option, some, ◌≡◌, ◌≢◌, refl, sym, ap, ◌∙◌, arith, inl, inr,
  Result-cases, ok, guard-eq-ok, or_throw-eq-ok, rethrow_as-eq-ok, >>=-eq-ok, ok-injective,
  rethrow_as, Number, nat, to_nat?, to_nat?_sound, Bytes,
}
use stellar_onramp.Identity.Hashes.{Hashes}
use stellar_onramp.Identity.Bbs.{Bbs}
use stellar_onramp.Identity.SubjectBinding.{subject_binding_salt_bytes, compute_subject_binding}
use stellar_onramp.Identity.Credential.{KycClaims, issue}
use stellar_onramp.Identity.Credential.Issued.{IsIssued, issue-IsIssued}
use stellar_onramp.Gateway.Kyc.Claims.{ClaimSet, claim_bitmap}
use stellar_onramp.Gateway.Kyc.RevocationIndex.{
  not_a_u32, max_revocation_index, assert_usable_revocation_index,
}
use stellar_onramp.Gateway.Kyc.Record.{build_issuance_record}
use stellar_onramp.Gateway.Kyc.Record.WellFormed.{build_issuance_record-IsKept}
use stellar_onramp.Gateway.Kyc.Issue.{
  bad_issued_at, bad_expires_at, bad_secret_key, empty_bitmap, bad_salt, no_index, bad_subject,
  bad_index, not_issued, not_recorded, IssueRequest, IssuedCredential, Prepared, salt_or_fresh,
  prepare, claims_to_sign, record_args, complete, issue_kyc_credential,
}

-- The signed claims say what the claim set says.
abbrev pub SaysSame : ClaimSet → KycClaims → Type 0
SaysSame set claims =
    (claims.over18 ≡ set.over18)
    × (claims.over21 ≡ set.over21)
    × (claims.not_sanctioned ≡ set.not_sanctioned)
    × (claims.not_pep ≡ set.not_pep)
    × (claims.jurisdiction_ok ≡ set.jurisdiction_ok)
    × (claims.liveness_ok ≡ set.liveness_ok)

-- The credential, the record and the bitmap agree with the request, the allocated index and each other.
pub record IsConsistent (hashes : Hashes) (bbs : Bbs) (request : IssueRequest)
    (allocated : Option Number) (issued : IssuedCredential) : Type 0 where
  pub is_issued :
      IsIssued hashes bbs issued.credential.claims request.issuer_secret_key issued.credential
  pub says_same : SaysSame request.claims issued.credential.claims
  pub committed :
      compute_subject_binding hashes request.wallet_address issued.subject_binding_salt
      ≡ ok issued.credential.claims.subject_binding
  pub bitmap_h : issued.bitmap ≡ claim_bitmap request.claims
  pub attestable : issued.bitmap ≢ 0
  pub allocated_h : allocated ≡ some (nat issued.issuance_record.revocation_index)
  pub signed_index :
      issued.credential.claims.revocation_index ≡ nat issued.issuance_record.revocation_index
  pub index_u32 : issued.issuance_record.revocation_index < 4294967296
  pub kept_bitmap : issued.issuance_record.claim_bitmap ≡ issued.bitmap
  pub kept_wallet : issued.issuance_record.wallet_c_addr ≡ request.wallet_address
  pub kept_issuer : issued.issuance_record.issuer_id ≡ issued.credential.claims.issuer_id
  pub begins : issued.credential.claims.issued_at ≡ nat issued.issuance_record.issued_at
  pub ends : issued.credential.claims.expires_at ≡ nat issued.issuance_record.expires_at
  pub lasts : issued.issuance_record.issued_at < issued.issuance_record.expires_at

-- What is known of a request that passed the first checks.
record IsPrepared (hashes : Hashes) (request : IssueRequest) (prepared : Prepared) : Type 0 where
  committed_h :
      compute_subject_binding hashes request.wallet_address prepared.salt
      ≡ ok prepared.subject_binding
  bitmap_is : prepared.bitmap ≡ claim_bitmap request.claims
  some_bit : prepared.bitmap ≢ 0

prepare-IsPrepared :
    (hashes : Hashes) (fresh : Bytes) (request : IssueRequest) {prepared : Prepared}
    → prepare hashes fresh request ≡ ok prepared
    → IsPrepared hashes request prepared
unfolding prepare
prepare-IsPrepared hashes fresh request h =
    let salt = salt_or_fresh request.subject_binding_salt fresh in
    let (start, _, h₁) = or_throw-eq-ok (to_nat? request.issued_at) bad_issued_at _ h in
    let (end, _, h₂) = or_throw-eq-ok (to_nat? request.expires_at) bad_expires_at _ h₁ in
    let (_, h₃) = guard-eq-ok (ltb start end) bad_expires_at h₂ in
    let (_, h₄) = guard-eq-ok (length request.issuer_secret_key == 32) bad_secret_key h₃ in
    let (some_bit, h₅) = guard-eq-ok (not (claim_bitmap request.claims == 0)) empty_bitmap h₄ in
    let (_, h₆) = guard-eq-ok (length salt == subject_binding_salt_bytes) bad_salt h₅ in
    let (subject, made, h₇) =
      >>=-eq-ok
        (rethrow_as (compute_subject_binding hashes request.wallet_address salt) bad_subject) _
        h₆ in
    subst (IsPrepared hashes request) (ok-injective h₇) (record {
      committed_h =
          rethrow_as-eq-ok (compute_subject_binding hashes request.wallet_address salt) _ made;
      bitmap_is = refl;
      some_bit = λ none_set. ground (arith, some_bit, none_set);
    })

usable-eq-ok :
    (value : Number) {index : ℕ}
    → assert_usable_revocation_index value ≡ ok index
    → value ≡ nat index
unfolding assert_usable_revocation_index
usable-eq-ok value h =
    let (n, is, h₁) = or_throw-eq-ok (to_nat? value) not_a_u32 _ h in
    let (_, h₂) = guard-eq-ok (leb n max_revocation_index) not_a_u32 h₁ in
    to_nat?_sound value is ∙ ap nat (ok-injective h₂)

nat-injective : {a b : ℕ} → nat a ≡ nat b → a ≡ b
nat-injective h = cc

complete-IsConsistent :
    (hashes : Hashes) (bbs : Bbs) (request : IssueRequest) (prepared : Prepared)
    (allocated : Option Number) {issued : IssuedCredential}
    → IsPrepared hashes request prepared
    → complete hashes bbs request prepared allocated ≡ ok issued
    → IsConsistent hashes bbs request allocated issued
unfolding complete
complete-IsConsistent hashes bbs request prepared allocated ready h =
    let (value, given, h₁) = or_throw-eq-ok allocated no_index _ h in
    let (index, usable, h₂) =
      >>=-eq-ok (rethrow_as (assert_usable_revocation_index value) bad_index) _ h₁ in
    let claims = claims_to_sign hashes bbs request prepared index in
    let args = record_args hashes bbs request prepared index in
    let (credential, made, h₃) =
      >>=-eq-ok (rethrow_as (issue hashes bbs claims request.issuer_secret_key) not_issued) _ h₂ in
    let (kept, built, h₄) = >>=-eq-ok (rethrow_as (build_issuance_record args) not_recorded) _ h₃ in
    let is_issued =
      issue-IsIssued hashes bbs claims request.issuer_secret_key
        (rethrow_as-eq-ok (issue hashes bbs claims request.issuer_secret_key) _ made) in
    let is_kept =
      build_issuance_record-IsKept args (rethrow_as-eq-ok (build_issuance_record args) _ built) in
    let carries = is_issued.carries_claims in
    let index_is = nat-injective is_kept.index_h.0 in
    let value_is =
      usable-eq-ok value (rethrow_as-eq-ok (assert_usable_revocation_index value) _ usable) in
    subst (IsConsistent hashes bbs request allocated) (ok-injective h₄) (record {
      is_issued =
          subst (λ c. IsIssued hashes bbs c request.issuer_secret_key credential) (sym carries)
            is_issued;
      says_same =
          subst (SaysSame request.claims) (sym carries) (refl, refl, refl, refl, refl, refl);
      committed = ready.committed_h ∙ ap (λ c. ok c.subject_binding) (sym carries);
      bitmap_h = ready.bitmap_is;
      attestable = ready.some_bit;
      allocated_h = given ∙ ap some (value_is ∙ ap nat index_is);
      signed_index = ap (λ c. c.revocation_index) carries ∙ ap nat index_is;
      index_u32 = is_kept.index_h.1;
      kept_bitmap = sym (nat-injective is_kept.bitmap_h.0);
      kept_wallet = sym is_kept.wallet_h.0;
      kept_issuer = sym is_kept.issuer_h ∙ ap (λ c. c.issuer_id) (sym carries);
      begins = ap (λ c. c.issued_at) carries ∙ is_kept.issued_h.0;
      ends = ap (λ c. c.expires_at) carries ∙ is_kept.expires_h.0;
      lasts = is_kept.lasting;
    })

-- What `issueKycCredential` returns is consistent, whatever allocates the indexes: the credential is
-- signed by the request's key over the request's claims, its subject binding commits to the wallet
-- with the salt returned, its index is the one that was allocated, a 32-bit number, and is the one
-- recorded, as are its issuer and its times; the bitmap is that of the claims, not 0, and recorded.
-- The allocator was asked once.
pub issue_kyc_credential-IsConsistent :
    {State : Type 0} (hashes : Hashes) (bbs : Bbs) (allocate : State → State × Option Number)
    (fresh : Bytes) (request : IssueRequest) (state : State) {issued : IssuedCredential}
    → (issue_kyc_credential hashes bbs allocate fresh request state).1 ≡ ok issued
    → IsConsistent hashes bbs request (allocate state).1 issued
      × ((issue_kyc_credential hashes bbs allocate fresh request state).0 ≡ (allocate state).0)
unfolding issue_kyc_credential
issue_kyc_credential-IsConsistent hashes bbs allocate fresh request state h =
    elim (Result-cases (prepare hashes fresh request)) [
      | inr (e, failed) ↦ absurd (ground (arith, failed, h))
      | inl (prepared, passed) ↦ (
        complete-IsConsistent hashes bbs request prepared (allocate state).1
            (prepare-IsPrepared hashes fresh request passed) (ground (arith, passed, h)),
        ground (arith, passed),
      )
    ]
