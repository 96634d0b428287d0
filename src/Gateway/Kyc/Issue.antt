-- ===== src/Gateway/Kyc/Issue.antt =====
-- `issueKycCredential` of packages/gateway/src/kyc/issue.ts. What allocates the revocation index is a
-- parameter, a state and its step, with none where it rejects; so is the salt that is drawn where the
-- request has none. The serialised form of the credential is left out.
pub mod Consistent
use stellar_onramp.Base.{
  ℕ, Bool, true, false, not, ◌==◌, ltb, length, Option, none, some, if◌then◌else◌, Result, ok, err,
  ◌>>=◌, ◌>>◌, guard, or_throw, rethrow_as, Number, nat, to_nat?, Bytes, Text,
}
use stellar_onramp.Identity.Hashes.{Hashes}
use stellar_onramp.Identity.Bbs.{Bbs}
use stellar_onramp.Identity.Schema.{SchemaError}
use stellar_onramp.Identity.SubjectBinding.{subject_binding_salt_bytes, compute_subject_binding}
use stellar_onramp.Identity.Credential.{
  schema_version_text, KycClaims, Credential, CredentialError, issuer_id_from_public_key, issue,
}
use stellar_onramp.Gateway.Kyc.Claims.{ClaimSet, claim_bitmap}
use stellar_onramp.Gateway.Kyc.RevocationIndex.{IndexError, assert_usable_revocation_index}
use stellar_onramp.Gateway.Kyc.Record.{
  RecordError, IssuanceArgs, IssuanceRecord, build_issuance_record,
}

pub data IssuanceError : Type 0 where
  bad_issued_at bad_expires_at bad_secret_key empty_bitmap bad_salt no_index : IssuanceError
  bad_subject : SchemaError → IssuanceError
  bad_index : IndexError → IssuanceError
  not_issued : CredentialError → IssuanceError
  not_recorded : RecordError → IssuanceError

pub record IssueRequest : Type 0 where
  pub claims : ClaimSet
  pub wallet_address : Text
  pub issued_at : Number
  pub expires_at : Number
  pub issuer_secret_key : Bytes
  pub issuer_public_key : Bytes
  pub provider : Text
  pub provider_ref_id : Text
  pub subject_id : Text
  pub subject_binding_salt : Option Bytes

pub record IssuedCredential : Type 0 where
  pub credential : Credential
  pub subject_binding_salt : Bytes
  pub issuance_record : IssuanceRecord
  pub bitmap : ℕ

-- What is known before an index is allocated.
pub record Prepared : Type 0 where
  pub issued_at : ℕ
  pub expires_at : ℕ
  pub bitmap : ℕ
  pub salt : Bytes
  pub subject_binding : Text

-- `request.subjectBindingSalt ?? freshSubjectBindingSalt()`
abbrev pub salt_or_fresh : Option Bytes → Bytes → Bytes
salt_or_fresh none fresh = fresh
salt_or_fresh (some salt) fresh = salt

-- The checks before the allocation.
unfoldable pub prepare : Hashes → Bytes → IssueRequest → Result IssuanceError Prepared
prepare hashes fresh request = do
  start ← or_throw (to_nat? request.issued_at) bad_issued_at
  end ← or_throw (to_nat? request.expires_at) bad_expires_at
  guard (ltb start end) bad_expires_at
  guard (length request.issuer_secret_key == 32) bad_secret_key
  guard (not (claim_bitmap request.claims == 0)) empty_bitmap
  guard (length (salt_or_fresh request.subject_binding_salt fresh) == subject_binding_salt_bytes)
      bad_salt
  subject ←
      rethrow_as
        (compute_subject_binding hashes request.wallet_address
          (salt_or_fresh request.subject_binding_salt fresh))
        bad_subject
  ok (record {
    issued_at = start;
    expires_at = end;
    bitmap = claim_bitmap request.claims;
    salt = salt_or_fresh request.subject_binding_salt fresh;
    subject_binding = subject;
  })

module _ (hashes : Hashes) (bbs : Bbs) where
  -- The claims that are signed.
  abbrev pub claims_to_sign : IssueRequest → Prepared → ℕ → KycClaims
  claims_to_sign request prepared index = record {
    schema_version = schema_version_text;
    issuer_id = issuer_id_from_public_key hashes bbs request.issuer_public_key;
    revocation_index = nat index;
    issued_at = request.issued_at;
    expires_at = request.expires_at;
    subject_binding = prepared.subject_binding;
    over18 = request.claims.over18;
    over21 = request.claims.over21;
    not_sanctioned = request.claims.not_sanctioned;
    not_pep = request.claims.not_pep;
    jurisdiction_ok = request.claims.jurisdiction_ok;
    liveness_ok = request.claims.liveness_ok;
  }

  -- What is recorded.
  abbrev pub record_args : IssueRequest → Prepared → ℕ → IssuanceArgs
  record_args request prepared index = record {
    provider = request.provider;
    provider_ref_id = request.provider_ref_id;
    subject_id = request.subject_id;
    wallet_c_addr = request.wallet_address;
    claim_bitmap = nat prepared.bitmap;
    schema_version = schema_version_text;
    issued_at = request.issued_at;
    expires_at = request.expires_at;
    revocation_index = nat index;
    issuer_id = issuer_id_from_public_key hashes bbs request.issuer_public_key;
  }

  -- What follows the allocation.
  unfoldable pub complete :
      IssueRequest → Prepared → Option Number → Result IssuanceError IssuedCredential
  complete request prepared allocated = do
    value ← or_throw allocated no_index
    index ← rethrow_as (assert_usable_revocation_index value) bad_index
    credential ←
        rethrow_as
          (issue hashes bbs (claims_to_sign request prepared index) request.issuer_secret_key)
          not_issued
    kept ← rethrow_as (build_issuance_record (record_args request prepared index)) not_recorded
    ok (record {
      credential = credential;
      subject_binding_salt = prepared.salt;
      issuance_record = kept;
      bitmap = prepared.bitmap;
    })

  unfoldable pub issue_kyc_credential :
      {State : Type 0}
      → (State → State × Option Number)
      → Bytes
      → IssueRequest
      → State
      → State × Result IssuanceError IssuedCredential
  issue_kyc_credential allocate fresh request state = elim (prepare hashes fresh request) [
    | err e ↦ (state, err e)
    | ok prepared ↦
        let (state', allocated) = allocate state in (state', complete request prepared allocated)
  ]
