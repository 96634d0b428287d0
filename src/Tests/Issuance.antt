-- ===== src/Tests/Issuance.antt =====
-- Runs of packages/gateway/src/kyc/issue.ts.
use stellar_onramp.Base.{
  ℕ, ◌+◌, ◌≡◌, refl, true, false, Option, none, some, ok, ◌∷◌, replicate, Number, nat, codes, equal,
  all_hex,
}
use stellar_onramp.Identity.Decimal.{digits_of}
use stellar_onramp.Identity.Gzip.{join}
use stellar_onramp.Identity.Schema.{
  encode_claims, encode_each, encode_claim, encode_value, has_equals,
}
use stellar_onramp.Identity.Binding.{all_base32}
use stellar_onramp.Identity.SubjectBinding.{compute_subject_binding}
use stellar_onramp.Identity.Credential.{claims_of, issue}
use stellar_onramp.Gateway.Kyc.Claims.{claim_bitmap, fold_claims}
use stellar_onramp.Gateway.Kyc.RevocationIndex.{assert_usable_revocation_index}
use stellar_onramp.Gateway.Kyc.Record.{build_issuance_record}
use stellar_onramp.Gateway.Kyc.Issue.{
  IssueRequest, IssuedCredential, prepare, complete, issue_kyc_credential,
}
use stellar_onramp.Gateway.Kyc.Issue.Consistent.{IsConsistent, issue_kyc_credential-IsConsistent}
use stellar_onramp.Tests.Presentation.{hashes, bbs, secret_key}

-- A counter.
abbrev count : ℕ → ℕ × Option Number
count n = (n + 1, some (nat n))

abbrev request : IssueRequest
request = record {
  claims = record {
    over18 = true;
    over21 = false;
    not_sanctioned = true;
    not_pep = true;
    jurisdiction_ok = true;
    liveness_ok = true;
  };
  wallet_address = b'C' ∷ replicate 55 b'A';
  issued_at = nat 1000;
  expires_at = nat 2000;
  issuer_secret_key = secret_key;
  issuer_public_key = secret_key;
  provider = codes "sumsub";
  provider_ref_id = codes "ref";
  subject_id = codes "subject";
  subject_binding_salt = none;
}

issued :
    (out : IssuedCredential) × ((issue_kyc_credential hashes bbs count (replicate 32 9) request 7).1
      ≡ ok out)
unfolding issue_kyc_credential prepare complete compute_subject_binding all_base32 join claim_bitmap
    fold_claims assert_usable_revocation_index issue encode_claims encode_each encode_claim
    encode_value has_equals all_hex digits_of equal claims_of build_issuance_record
issued = (_, refl)

issue_kyc_credential-IsConsistent_example :
    IsConsistent hashes bbs request (some (nat 7)) issued.0
    × ((issue_kyc_credential hashes bbs count (replicate 32 9) request 7).0 ≡ 8)
issue_kyc_credential-IsConsistent_example =
    issue_kyc_credential-IsConsistent hashes bbs count (replicate 32 9) request 7 issued.1
