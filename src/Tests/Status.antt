-- ===== src/Tests/Status.antt =====
-- Runs of packages/gateway/src/status.
use stellar_onramp.Base.Integers.{ℤ}
use stellar_onramp.Base.{
  ℕ, ◌≤◌, ◌≡◌, refl, arith, false, List, [], ◌∷◌, none, some, replicate, ok, leb, if◌then◌else◌,
  Text, codes, equal, sym, ◌∙◌, Bool-cases, length, ◌++◌, inl, inr,
}
use stellar_onramp.Identity.Base64.{
  base64url_decode, run, step, push, b64url_reverse, finish, decoded_length, multibase_decode,
}
use stellar_onramp.Identity.Gzip.{gunzip, read_capped}
use stellar_onramp.Identity.StatusList.{revocation, decode_status_list}
use stellar_onramp.Identity.StatusList.Messages.{assert_status_message}
use stellar_onramp.Tests.Identity.{zeros, zero_list}
use stellar_onramp.Gateway.Status.HttpsUrl.{UrlParser, assert_https_url}
use stellar_onramp.Gateway.Status.Canonical.{
  JsonValue, object, element, end, Members, empty, member, Signatures, member_of, members_without,
  without, canonical_json, insert_member, sort_members, text_leb, join_commas, is_printable,
  status_list_domain, status_list_signing_input,
}
use stellar_onramp.Gateway.Status.Credential.{
  Document, assert_document_shape, decode_proof_value, verify_status_list_credential,
}
use stellar_onramp.Gateway.Status.Credential.Date.{parse_xsd_date_time, is_xsd_date_time}
use stellar_onramp.Gateway.Status.Credential.Verified.{IsVerified, verify-IsVerified}
use stellar_onramp.Gateway.Status.Resolution.{
  PinnedIssuer, Response, responds, fails, Environment, resolution, unknown_issuer,
}
use stellar_onramp.Gateway.Status.Fetch.{
  CacheEntry, request, redirect_target, next_url, follow, accept, as_purpose, expected_of,
  fetch_and_verify,
}
use stellar_onramp.Gateway.Status.Fetch.Redirects.{Chain, follow-Chain}
use stellar_onramp.Gateway.Status.Resolver.{
  Resolver, Settings, StatusListRequest, find_issuer, cache_get, cache_set, or_default, is_recent,
  assert_temporally_usable, assert_purpose, serve_fetched, serve, resolve, provenance,
}
use stellar_onramp.Gateway.Status.Resolver.Create.{
  Config, create, pin_issuers, IsSound, create-IsSound,
}
use stellar_onramp.Gateway.Status.Resolver.Served.{
  Asks, Serves, IsUsable, resolve-Serves, resolve-error, resolve-shared,
}
use stellar_onramp.Gateway.Status.Resolver.Trust.{
  IsReachable, created, resolved, AllTrusted, HaveOwnUrls, IsVouched, reachable-AllTrusted,
  resolve-IsVouched,
}

-- Every text is an https URL.
abbrev urls : UrlParser
urls = record {
  parse = λ text.
      some (record { protocol = codes "https:"; username = []; password = []; href = text });
  resolve = λ text base.
      some (record { protocol = codes "https:"; username = []; password = []; href = text });
}

-- A digest that tells texts apart by their length alone, and a key that has signed the domain with a
-- configuration and a document of these lengths.
abbrev signatures : Signatures
signatures = record {
  stringify = λ text. b'"' ∷ (text ++ (b'"' ∷ []));
  utf8 = λ text. text;
  sha256 = λ bytes. length bytes ∷ [];
  verify = λ key input signature. equal input (status_list_domain ++ (107 ∷ 296 ∷ []));
}

abbrev text_member : Text → Text → Members → Members
text_member key value rest = member key (JsonValue.string value) rest

abbrev proof : JsonValue
proof = object (
    text_member (codes "type") (codes "DataIntegrityProof") (
      text_member (codes "cryptosuite") (codes "stellaronramp-eddsa-jcs-2026") (
        text_member (codes "proofPurpose") (codes "assertionMethod")
          (text_member (codes "proofValue") (b'u' ∷ replicate 86 b'A') empty))))

abbrev subject : Members
subject = text_member (codes "type") (codes "BitstringStatusList") (
    text_member (codes "statusPurpose") (codes "revocation")
      (text_member (codes "encodedList") (codes "u") empty))

abbrev one : Text → JsonValue
one value = JsonValue.array (element (JsonValue.string value) end)

abbrev raw : JsonValue
raw = object (
    member (codes "@context") (one (codes "https://www.w3.org/ns/credentials/v2")) (
      member (codes "type") (one (codes "BitstringStatusListCredential")) (
        text_member (codes "id") (codes "urn:list") (
          text_member (codes "issuer") (codes "did:a") (
            text_member (codes "validFrom") (codes "2026-01-01T00:00:00Z") (
              text_member (codes "validUntil") (codes "2026-01-02T00:00:00Z") (
                member (codes "credentialSubject") (object subject)
                  (member (codes "proof") proof empty))))))))

abbrev document : Document
document = record {
  raw = raw;
  id = codes "urn:list";
  issuer = codes "did:a";
  valid_from = codes "2026-01-01T00:00:00Z";
  valid_until = codes "2026-01-02T00:00:00Z";
  list = zero_list;
  proof = some proof;
}

abbrev response : Response
response = record { status = 200; location = none; body = [] }

abbrev moved : Response
moved = record { status = 302; location = some (codes "https://b"); body = [] }

-- The first request is redirected, the second answered.
abbrev env : Environment
env = record {
  urls = urls;
  get = λ hop url. if leb 1 hop then responds response else responds moved;
  parse_json = λ body. some raw;
  date_parse =
      λ text. some (if equal text (codes "2026-01-01T00:00:00Z") then 1000000 else 9000000);
  signatures = signatures;
  streams = zeros;
}

abbrev issuer : PinnedIssuer
issuer = record {
  issuer_id = codes "a";
  url = codes "https://a";
  public_key_raw = replicate 32 0;
  document_issuer = codes "did:a";
  verification_method = none;
}

abbrev settings : Settings
settings = record {
  issuers = issuer ∷ [];
  max_age = 300;
  cache_ttl = 60;
  max_bytes = 16777216;
  max_redirects = 3;
  default_issuer_id = some (codes "a");
}

abbrev start : Resolver
start = record { settings = settings; cache = []; last_provenance = none }

abbrev config : Config
config = record {
  issuers = issuer ∷ [];
  max_age_seconds = none;
  cache_ttl_seconds = none;
  max_bytes = none;
  max_redirects = none;
  default_issuer_id = some (codes "a");
}

abbrev asked : StatusListRequest
asked = record { issuer_id = none; status_purpose = revocation }

abbrev entry : CacheEntry
entry = record {
  document = document;
  list = zero_list;
  valid_from_seconds = 1000;
  valid_until_seconds = 9000;
  fetched_at_seconds = 1100;
}

abbrev served : Resolver
served = record {
  settings = settings;
  cache = (codes "https://a", entry) ∷ [];
  last_provenance = some (provenance settings issuer (codes "a") entry 1100 (ℤ.pos 0) false);
}

config-creates : create urls config ≡ ok start
unfolding create pin_issuers assert_https_url find_issuer equal
config-creates = refl

create-IsSound_example : IsSound urls settings × (◌≡◌ {A = List (Text × CacheEntry)} [] [])
create-IsSound_example = create-IsSound urls config config-creates

config_text :
    canonical_json signatures.stringify (without (codes "proofValue") proof)
    ≡ ok (
        codes
          "{\"cryptosuite\":\"stellaronramp-eddsa-jcs-2026\",\"proofPurpose\":\"assertionMethod\",\"type\":\"DataIntegrityProof\"}")
unfolding canonical_json members_without sort_members insert_member text_leb join_commas
    is_printable equal
config_text = refl

document-verifies : verify_status_list_credential signatures raw (expected_of issuer) ≡ ok document
unfolding verify_status_list_credential assert_document_shape decode_proof_value base64url_decode
    run step push b64url_reverse finish decoded_length equal member_of members_without
    canonical_json sort_members insert_member text_leb join_commas is_printable
    status_list_signing_input
document-verifies = refl

verify-IsVerified_example : IsVerified signatures raw (expected_of issuer) document
verify-IsVerified_example = verify-IsVerified signatures raw (expected_of issuer) document-verifies

redirect-follows : follow env 3 0 (codes "https://a") ≡ ok response
unfolding follow request next_url redirect_target assert_https_url equal
redirect-follows = refl

follow-Chain_example : (count : ℕ) × (count ≤ 4) × Chain env 0 (codes "https://a") count response
follow-Chain_example = follow-Chain env 3 0 (codes "https://a") redirect-follows

issuer-fetched : fetch_and_verify env issuer 3 16777216 1100 ≡ ok entry
unfolding fetch_and_verify follow request next_url redirect_target assert_https_url accept
    as_purpose verify_status_list_credential assert_document_shape decode_proof_value
    base64url_decode run step push b64url_reverse finish decoded_length parse_xsd_date_time
    is_xsd_date_time decode_status_list multibase_decode gunzip read_capped assert_status_message
    equal member_of members_without canonical_json sort_members insert_member text_leb join_commas
    is_printable status_list_signing_input
issuer-fetched = refl

asked-resolves : resolve env asked 1100 start ≡ (served, ok zero_list)
unfolding resolve or_default find_issuer cache_get cache_set serve serve_fetched
    assert_temporally_usable assert_purpose equal
asked-resolves = ground (arith, issuer-fetched)

resolve-Serves_example :
    (pinned : PinnedIssuer) × Asks start asked pinned
    × Serves env pinned revocation 1100 start served zero_list
resolve-Serves_example = resolve-Serves env asked 1100 start asked-resolves

abbrev nobody : StatusListRequest
nobody = record { issuer_id = some (codes "z"); status_purpose = revocation }

resolve-error_example : start ≡ start
unfolding resolve or_default find_issuer equal
resolve-error_example = resolve-error env nobody 1100 start {e = resolution unknown_issuer} refl

-- Another issuer, of another key, pinned at the same URL.
abbrev neighbour : PinnedIssuer
neighbour = record issuer {
  issuer_id = codes "b";
  public_key_raw = replicate 32 1;
  document_issuer = codes "did:b";
}

abbrev shared : Resolver
shared = record served { settings = record settings { issuers = issuer ∷ neighbour ∷ [] } }

abbrev offline : Environment
offline = record env { get = λ hop url. fails }

resolve-shared_example :
    (resolve env
      (record { issuer_id = some (codes "a"); status_purpose = revocation })
      1120
      shared).1
    ≡ (resolve offline
        (record { issuer_id = some (codes "b"); status_purpose = revocation })
        1120
        shared).1
unfolding find_issuer cache_get is_recent equal
resolve-shared_example =
    resolve-shared env offline (codes "a") (codes "b") issuer neighbour revocation 1120 shared entry
      refl refl refl refl refl

start-IsReachable : IsReachable env start
start-IsReachable = created config config-creates

reachable-AllTrusted_example : AllTrusted env (resolve env asked 1100 start).0
reachable-AllTrusted_example =
    reachable-AllTrusted env (resolved env.get asked 1100 start-IsReachable)

one_issuer : (id : Text) {p : PinnedIssuer} → find_issuer id (issuer ∷ []) ≡ some p → p ≡ issuer
unfolding find_issuer
one_issuer id h = elim (Bool-cases (equal (codes "a") id)) [
  | inl t ↦ ground (arith, t, h)
  | inr f ↦ absurd (ground (arith, f, h))
]

settings-HaveOwnUrls : HaveOwnUrls settings
settings-HaveOwnUrls a b p q ha hb url = one_issuer a ha ∙ sym (one_issuer b hb)

resolve-IsVouched_example :
    (pinned : PinnedIssuer) × Asks start asked pinned
    × ((found : CacheEntry) × (found.list ≡ zero_list)
        × IsUsable settings revocation 1100 found
        × IsVouched env pinned found)
resolve-IsVouched_example =
    resolve-IsVouched env asked 1100 start start-IsReachable settings-HaveOwnUrls asked-resolves
