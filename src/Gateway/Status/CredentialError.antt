-- ===== src/Gateway/Status/CredentialError.antt =====
-- `StatusCredentialError` of packages/gateway/src/status/credential.ts, one constructor for each
-- `throw` that the model reaches; the messages are left out.
use stellar_onramp.Identity.StatusListError.{StatusListError}

pub data CredentialError : Type 0 where
  url_not_string url_not_absolute url_not_https url_with_credentials : CredentialError
  not_json_object wrong_context wrong_type missing_field : CredentialError
  no_subject wrong_subject_type bad_subject : CredentialError
  unsigned_document null_proof wrong_proof_type wrong_cryptosuite wrong_purpose : CredentialError
  wrong_issuer wrong_method bad_public_key bad_proof_value : CredentialError
  wrong_prefix wrong_signature_length not_canonical bad_signature : CredentialError
  bad_encoding : StatusListError → CredentialError
  not_date_time not_an_instant : CredentialError
