-- ===== src/Gateway/Status/Resolution.antt =====
-- The refusals of packages/gateway/src/status/resolver.ts, and what one resolution is given: the
-- pinned issuers, and the platform, the network and the decoder as parameters.
use stellar_onramp.Base.{ℕ, Option, Bytes, Text}
use stellar_onramp.Identity.StatusListError.{StatusListError}
use stellar_onramp.Identity.Gzip.{GzipStreams}
use stellar_onramp.Gateway.Status.CredentialError.{CredentialError}
use stellar_onramp.Gateway.Status.HttpsUrl.{UrlParser}
use stellar_onramp.Gateway.Status.Canonical.{JsonValue, Signatures}

pub data Reason : Type 0 where
  unknown_issuer issuer_undisclosed insecure_url redirect_downgrade too_many_redirects : Reason
  http_error response_too_large timeout transport malformed proof_invalid : Reason
  not_yet_valid expired stale purpose_mismatch : Reason

-- A `StatusListResolutionError` by its reason, or an error of another class that passes through.
pub data Refusal : Type 0 where
  resolution : Reason → Refusal
  credential : CredentialError → Refusal
  status_list : StatusListError → Refusal

pub record PinnedIssuer : Type 0 where
  pub issuer_id : Text
  pub url : Text
  pub public_key_raw : Bytes
  pub document_issuer : Text
  pub verification_method : Option Text

pub record Response : Type 0 where
  pub status : ℕ
  pub location : Option Text
  pub body : Bytes

-- What `http.get` does: it resolves, or it throws an error of this class, an `AbortError` or another.
pub data Fetch : Type 0 where
  responds : Response → Fetch
  throws : Reason → Fetch
  aborts fails : Fetch

-- The network answers the request with this number in the chain of redirects, for this URL.
pub record Environment : Type 0 where
  pub urls : UrlParser
  pub get : ℕ → Text → Fetch
  pub parse_json : Bytes → Option JsonValue
  pub date_parse : Text → Option ℕ
  pub signatures : Signatures
  pub streams : GzipStreams
