-- ===== src/Gateway/Status/Fetch.antt =====
-- `#fetchAndVerify` of packages/gateway/src/status/resolver.ts. Instants are seconds from an origin
-- before the year 0000 (see Credential/Date).
pub mod Redirects
use stellar_onramp.Base.{
  ℕ, zero, suc, ◌+◌, Bool, true, false, not, ◌&&◌, [], ◌∷◌, Option, none, some, ltb, leb, ◌==◌,
  if◌then◌else◌, length, Result, ok, err, ◌>>=◌, ◌>>◌, guard, or_throw, rethrow_as, Text, codes,
  equal,
}
use stellar_onramp.Identity.StatusList.{
  StatusList, StatusPurpose, revocation, suspension, object, decode_status_list,
}
use stellar_onramp.Gateway.Status.CredentialError.{CredentialError}
use stellar_onramp.Gateway.Status.HttpsUrl.{Url, assert_https_url, is_https}
use stellar_onramp.Gateway.Status.Credential.{Document, Expected, verify_status_list_credential}
use stellar_onramp.Gateway.Status.Credential.Date.{parse_xsd_date_time}
use stellar_onramp.Gateway.Status.Resolution.{
  Refusal, resolution, credential, status_list, Reason, redirect_downgrade, too_many_redirects,
  http_error, response_too_large, timeout, transport, malformed, proof_invalid, PinnedIssuer,
  Response, Fetch, responds, throws, aborts, fails, Environment,
}

pub record CacheEntry : Type 0 where
  pub document : Document
  pub list : StatusList
  pub valid_from_seconds : ℕ
  pub valid_until_seconds : ℕ
  pub fetched_at_seconds : ℕ

abbrev pub is_redirect : Response → Bool
is_redirect response = leb 300 response.status && ltb response.status 400

-- `location === undefined || location === ''`, and `new URL(location, url)`.
unfoldable pub redirect_target : Environment → Text → Option Text → Result Refusal Url
redirect_target env url none = err (resolution malformed)
redirect_target env url (some []) = err (resolution malformed)
redirect_target env url (some (c ∷ cs)) =
    or_throw (env.urls.resolve (c ∷ cs) url) (resolution malformed)

-- The URL that a redirect leads to, once it has passed the checks on the scheme.
unfoldable pub next_url : Environment → Text → Response → Result Refusal Text
unfolding redirect_target
next_url env url response = do
  next ← redirect_target env url response.location
  guard (is_https next) (resolution redirect_downgrade)
  checked ← rethrow_as (assert_https_url env.urls next.href) credential
  ok next.href

-- The request for `url`: the response, or the error that the catch makes of what was thrown.
unfoldable pub request : Environment → ℕ → Text → Result Refusal Response
request env hop url = elim (env.get hop url) [
  | responds response ↦ ok response
  | throws reason ↦ err (resolution reason)
  | aborts ↦ err (resolution timeout)
  | fails ↦ err (resolution transport)
]

-- The loop over the redirects: `left` is how many more may be followed, `hop` how many have been.
unfoldable pub follow : Environment → ℕ → ℕ → Text → Result Refusal Response
follow env zero hop url = do
  response ← request env hop url
  if is_redirect response then err (resolution too_many_redirects) else ok response
follow env (suc left) hop url = do
  response ← request env hop url
  let further = next_url env url response >>= λ next. follow env left (hop + 1) next
  if is_redirect response then further else ok response

-- `list.statusPurpose as StatusPurpose`: a text that names no purpose is refused by the decoder.
unfoldable pub as_purpose : Text → Option StatusPurpose
as_purpose purpose =
    if equal purpose (codes "revocation")
    then some revocation
    else if equal purpose (codes "suspension")
    then some suspension
    else none

abbrev pub expected_of : PinnedIssuer → Expected
expected_of pinned = record {
  public_key_raw = pinned.public_key_raw;
  issuer = pinned.document_issuer;
  verification_method = pinned.verification_method;
}

-- What follows the loop: the checks on the response, its proof, its dates and its list.
unfoldable pub accept : Environment → PinnedIssuer → ℕ → ℕ → Response → Result Refusal CacheEntry
unfolding as_purpose
accept env pinned max_bytes now response = do
  guard (response.status == 200) (resolution http_error)
  guard (leb (length response.body) max_bytes) (resolution response_too_large)
  parsed ← or_throw (env.parse_json response.body) (resolution malformed)
  document ←
      rethrow_as (verify_status_list_credential env.signatures parsed (expected_of pinned))
        (λ e. resolution proof_invalid)
  valid_from ← rethrow_as (parse_xsd_date_time env.date_parse document.valid_from) credential
  valid_until ← rethrow_as (parse_xsd_date_time env.date_parse document.valid_until) credential
  guard (ltb valid_from valid_until) (resolution malformed)
  let list = document.list
  decoded ←
      rethrow_as (decode_status_list env.streams (object list) (as_purpose list.status_purpose))
        status_list
  ok (record {
    document = document;
    list = list;
    valid_from_seconds = valid_from;
    valid_until_seconds = valid_until;
    fetched_at_seconds = now;
  })

unfoldable pub fetch_and_verify : Environment → PinnedIssuer → ℕ → ℕ → ℕ → Result Refusal CacheEntry
fetch_and_verify env pinned max_redirects max_bytes now = do
  url ← rethrow_as (assert_https_url env.urls pinned.url) credential
  response ← follow env max_redirects 0 url.href
  accept env pinned max_bytes now response
