-- ===== src/Gateway/Status/Resolver.antt =====
-- `HardenedStatusListResolver` of packages/gateway/src/status/resolver.ts: its fields as a state,
-- its methods in a monad of state and error, where a throw keeps what was written before it. Calls are
-- taken one after another: two that await their answers at once on one cache are not expressed. The
-- cache ttl, the byte cap and the redirect cap, which nothing checks, are natural numbers.
pub mod Create
pub mod Served
pub mod Trust
use stellar_onramp.Base.{
  ℕ, ◌+◌, ◌*◌, Bool, true, false, not, List, [], ◌∷◌, Option, none, some, ltb, leb, ◌==◌,
  if◌then◌else◌, length, Result, ok, err, Bytes, Text, equal, Number, nat, negsuc, non_integer,
}
use stellar_onramp.Base.Integers.{ℤ, sub_ℕ, below, above}
use stellar_onramp.Identity.Gzip.{max_status_list_bytes}
use stellar_onramp.Identity.StatusList.{StatusList, StatusPurpose, purpose_name}
use stellar_onramp.Gateway.Status.CredentialError.{CredentialError}
use stellar_onramp.Gateway.Status.HttpsUrl.{assert_https_url, UrlParser}
use stellar_onramp.Gateway.Status.Fetch.{CacheEntry, fetch_and_verify}
use stellar_onramp.Gateway.Status.Resolution.{
  Refusal, resolution, credential, Reason, unknown_issuer, issuer_undisclosed, proof_invalid,
  not_yet_valid, expired, stale, purpose_mismatch, PinnedIssuer, Environment,
}

pub record Provenance : Type 0 where
  pub url : Text
  pub issuer_id : Text
  pub document_age_seconds : ℤ
  pub cache_age_seconds : ℤ
  pub max_age_seconds : ℕ
  pub valid_until_seconds : ℕ
  pub from_cache : Bool

-- The fields that the constructor fills and no method writes.
pub record Settings : Type 0 where
  pub issuers : List PinnedIssuer
  pub max_age : ℕ
  pub cache_ttl : ℕ
  pub max_bytes : ℕ
  pub max_redirects : ℕ
  pub default_issuer_id : Option Text

pub record Resolver : Type 0 where
  pub settings : Settings
  pub open settings use *
  pub cache : List (Text × CacheEntry)
  pub last_provenance : Option Provenance

pub record StatusListRequest : Type 0 where
  pub issuer_id : Option Text
  pub status_purpose : StatusPurpose

-- `this.#issuers.get(issuerId)`
unfoldable pub find_issuer : Text → List PinnedIssuer → Option PinnedIssuer
find_issuer id [] = none
find_issuer id (issuer ∷ issuers) =
    if equal issuer.issuer_id id then some issuer else find_issuer id issuers

-- `this.#cache.get(url)` and `this.#cache.set(url, entry)`
unfoldable pub cache_get : Text → List (Text × CacheEntry) → Option CacheEntry
cache_get url [] = none
cache_get url ((key, entry) ∷ cache) = if equal key url then some entry else cache_get url cache

unfoldable pub cache_set : Text → CacheEntry → List (Text × CacheEntry) → List (Text × CacheEntry)
cache_set url entry [] = (url, entry) ∷ []
cache_set url entry ((key, old) ∷ cache) =
    if equal key url then (key, entry) ∷ cache else (key, old) ∷ cache_set url entry cache

abbrev pub M : Type 0 → Type 0
M A = Resolver → Resolver × Result Refusal A

abbrev pub return : {A : Type 0} → A → M A
return a r = (r, ok a)

abbrev pub throw : {A : Type 0} → Refusal → M A
throw e r = (r, err e)

infixl 5 ◌>>=◌ ◌>>◌
abbrev pub ◌>>=◌ : {A B : Type 0} → M A → (A → M B) → M B
◌>>=◌ m f r = let (r', result) = m r in elim result [ ok a ↦ f a r' | err e ↦ (r', err e) ]

abbrev pub ◌>>◌ : {B : Type 0} → M (Unit {0}) → M B → M B
m >> k = m >>= λ _. k

abbrev pub lift : {A : Type 0} → Result Refusal A → M A
lift result r = (r, result)

abbrev pub refuse_if : Bool → Reason → M (Unit {0})
refuse_if true reason = throw (resolution reason)
refuse_if false reason = return tt

abbrev pub found : {A : Type 0} → Option A → Reason → M A
found none reason = throw (resolution reason)
found (some a) reason = return a

abbrev pub get : M Resolver
get r = (r, ok r)

abbrev pub put : Resolver → M (Unit {0})
put r' r = (r', ok tt)

-- `request.issuerId ?? this.#defaultIssuerId`
unfoldable pub or_default : Option Text → Option Text → Option Text
or_default (some id) other = some id
or_default none other = other

-- `#assertTemporallyUsable`
unfoldable pub assert_temporally_usable : Settings → CacheEntry → ℕ → M (Unit {0})
assert_temporally_usable settings entry now = do
  refuse_if (ltb (now + 60) entry.valid_from_seconds) not_yet_valid
  refuse_if (leb entry.valid_until_seconds now) expired
  refuse_if (above (sub_ℕ now entry.valid_from_seconds) settings.max_age) stale

-- `#assertPurpose`
unfoldable pub assert_purpose : StatusList → StatusPurpose → M (Unit {0})
assert_purpose list wanted =
    refuse_if (not (equal list.status_purpose (purpose_name wanted))) purpose_mismatch

abbrev pub provenance : Settings → PinnedIssuer → Text → CacheEntry → ℕ → ℤ → Bool → Provenance
provenance settings pinned issuer_id entry now cache_age from_cache = record {
  url = pinned.url;
  issuer_id = issuer_id;
  document_age_seconds = sub_ℕ now entry.valid_from_seconds;
  cache_age_seconds = cache_age;
  max_age_seconds = settings.max_age;
  valid_until_seconds = entry.valid_until_seconds;
  from_cache = from_cache;
}

-- The branch of `resolve` that is served from the cache.
unfoldable pub serve_cached : PinnedIssuer → Text → StatusPurpose → ℕ → CacheEntry → M StatusList
unfolding assert_temporally_usable assert_purpose
serve_cached pinned issuer_id purpose now cached = do
  r ← get
  assert_temporally_usable r.settings cached now
  assert_purpose cached.list purpose
  let age = sub_ℕ now cached.fetched_at_seconds
  put (record r {
    last_provenance = some (provenance r.settings pinned issuer_id cached now age true);
  })
  return cached.list

-- The branch that fetches the document.
unfoldable pub serve_fetched : Environment → PinnedIssuer → Text → StatusPurpose → ℕ → M StatusList
unfolding assert_temporally_usable assert_purpose
serve_fetched env pinned issuer_id purpose now = do
  r ← get
  entry ← lift (fetch_and_verify env pinned r.max_redirects r.max_bytes now)
  assert_temporally_usable r.settings entry now
  assert_purpose entry.list purpose
  put (record r {
    cache = cache_set pinned.url entry r.cache;
    last_provenance = some (provenance r.settings pinned issuer_id entry now (ℤ.pos 0) false);
  })
  return entry.list

-- A copy that is young enough is served from the cache; a clock set back makes it younger.
unfoldable pub is_recent : Settings → ℕ → CacheEntry → Bool
is_recent settings now cached = below (sub_ℕ now cached.fetched_at_seconds) settings.cache_ttl

unfoldable pub serve :
    Environment → PinnedIssuer → Text → StatusPurpose → ℕ → Option CacheEntry → M StatusList
unfolding is_recent serve_cached serve_fetched
serve env pinned issuer_id purpose now none r = serve_fetched env pinned issuer_id purpose now r
serve env pinned issuer_id purpose now (some cached) r =
    if is_recent r.settings now cached
    then serve_cached pinned issuer_id purpose now cached r
    else serve_fetched env pinned issuer_id purpose now r

unfoldable pub resolve : Environment → StatusListRequest → ℕ → M StatusList
unfolding or_default serve
resolve env request now = do
  r ← get
  issuer_id ← found (or_default request.issuer_id r.default_issuer_id) issuer_undisclosed
  pinned ← found (find_issuer issuer_id r.issuers) unknown_issuer
  serve env pinned issuer_id request.status_purpose now (cache_get pinned.url r.cache)

unfoldable pub invalidate : Resolver → Resolver
invalidate r = record r { cache = [] }
