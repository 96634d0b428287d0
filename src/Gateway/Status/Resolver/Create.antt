-- ===== src/Gateway/Status/Resolver/Create.antt =====
-- The constructor of `HardenedStatusListResolver` (packages/gateway/src/status/resolver.ts).
-- Durations are whole numbers of seconds; `non_integer` stands for NaN and the infinities. The cache ttl,
-- the byte cap and the redirect cap are natural numbers: the code checks the first against the
-- freshness bound alone, and the others not at all.
use mathlib.Core.Path.{subst}
use stellar_onramp.Base.{
  ℕ, not, List, [], ◌∷◌, Option, none, some, ltb, leb, ◌==◌, length, Result, ok, err, ◌>>=◌, ◌>>◌,
  guard, rethrow_as, Text, Number, nat, negsuc, non_integer, ◌≡◌, ◌≤◌, ◌<◌, refl, arith,
  guard-eq-ok, >>=-eq-ok, ok-injective, All, ==_iff, is_some, is_some-none, rethrow_as-eq-ok,
  leb→le,
}
use stellar_onramp.Identity.Gzip.{max_status_list_bytes}
use stellar_onramp.Gateway.Status.HttpsUrl.{UrlParser, Url, assert_https_url}
use stellar_onramp.Gateway.Status.Resolution.{
  Refusal, resolution, credential, unknown_issuer, proof_invalid, stale, PinnedIssuer,
}
use stellar_onramp.Gateway.Status.Resolver.{Settings, Resolver, find_issuer}

pub record Config : Type 0 where
  pub issuers : List PinnedIssuer
  pub max_age_seconds : Option Number
  pub cache_ttl_seconds : Option ℕ
  pub max_bytes : Option ℕ
  pub max_redirects : Option ℕ
  pub default_issuer_id : Option Text

-- `value ?? default`
abbrev or_else {ℓ} : {A : Type ℓ} → Option A → A → A
or_else (some value) other = value
or_else none other = other

-- The loop over the issuers; the map that it fills holds each at its id.
unfoldable pub pin_issuers :
    UrlParser → List PinnedIssuer → List PinnedIssuer → Result Refusal (List PinnedIssuer)
pin_issuers urls pinned [] = ok pinned
pin_issuers urls pinned (issuer ∷ issuers) = do
  url ← rethrow_as (assert_https_url urls issuer.url) credential
  guard (length issuer.public_key_raw == 32) (resolution proof_invalid)
  guard (not (is_some (find_issuer issuer.issuer_id pinned))) (resolution unknown_issuer)
  pin_issuers urls (issuer ∷ pinned) issuers

-- `!Number.isFinite(maxAge) || maxAge <= 0`
positive_bound : Number → Result Refusal ℕ
positive_bound (nat n) = do guard (ltb 0 n) (resolution stale); ok n
positive_bound (negsuc n) = err (resolution stale)
positive_bound non_integer = err (resolution stale)

-- `config.issuers.length === 0`
require_issuers : List PinnedIssuer → Result Refusal (Unit {0})
require_issuers [] = err (resolution unknown_issuer)
require_issuers (issuer ∷ issuers) = ok tt

unfoldable pub create : UrlParser → Config → Result Refusal Resolver
unfolding positive_bound require_issuers
create urls config = do
  require_issuers config.issuers
  pinned ← pin_issuers urls [] config.issuers
  max_age ← positive_bound (or_else config.max_age_seconds (nat 300))
  let cache_ttl = or_else config.cache_ttl_seconds 60
  guard (leb cache_ttl max_age) (resolution stale)
  ok (record {
    settings = record {
      issuers = pinned;
      max_age = max_age;
      cache_ttl = cache_ttl;
      max_bytes = or_else config.max_bytes max_status_list_bytes;
      max_redirects = or_else config.max_redirects 3;
      default_issuer_id = config.default_issuer_id;
    };
    cache = [];
    last_provenance = none;
  })

-- The URL of a pinned issuer is https, and its key has 32 bytes.
abbrev pub IsPinned : UrlParser → PinnedIssuer → Type 0
IsPinned urls issuer =
    ((url : Url) × (assert_https_url urls issuer.url ≡ ok url))
    × (length issuer.public_key_raw ≡ 32)

-- No two pinned issuers have one id.
abbrev pub AreDistinct : List PinnedIssuer → Type 0
AreDistinct [] = Unit {0}
AreDistinct (issuer ∷ issuers) = (find_issuer issuer.issuer_id issuers ≡ none) × AreDistinct issuers

pub record IsSound (urls : UrlParser) (settings : Settings) : Type 0 where
  pub pinned : All (IsPinned urls) settings.issuers
  pub distinct : AreDistinct settings.issuers
  pub bounded : 0 < settings.max_age
  pub cache_within : settings.cache_ttl ≤ settings.max_age

pin_issuers_sound :
    (urls : UrlParser) (issuers pinned : List PinnedIssuer) {all : List PinnedIssuer}
    → All (IsPinned urls) pinned
    → AreDistinct pinned
    → pin_issuers urls pinned issuers ≡ ok all
    → All (IsPinned urls) all × AreDistinct all
unfolding pin_issuers
pin_issuers_sound urls [] pinned h d r =
    subst (λ all. All (IsPinned urls) all × AreDistinct all) (ok-injective r) (h, d)
pin_issuers_sound urls (issuer ∷ issuers) pinned h d r =
    let (url, https, r₁) =
      >>=-eq-ok (rethrow_as (assert_https_url urls issuer.url) credential) _ r in
    let (key, r₂) = guard-eq-ok (length issuer.public_key_raw == 32) _ r₁ in
    let (new, r₃) = guard-eq-ok (not (is_some (find_issuer issuer.issuer_id pinned))) _ r₂ in
    pin_issuers_sound urls issuers (issuer ∷ pinned)
      (
        (
          (url, rethrow_as-eq-ok (assert_https_url urls issuer.url) credential https),
          (==_iff _ 32).0 key,
        ),
        h,
      )
      (is_some-none (find_issuer issuer.issuer_id pinned) new, d) r₃

positive_bound-pos : (v : Number) {n : ℕ} → positive_bound v ≡ ok n → 0 < n
unfolding positive_bound
positive_bound-pos (nat n) h = ground arith
positive_bound-pos (negsuc n) h = absurd (cc)
positive_bound-pos non_integer h = absurd (cc)

-- A resolver that the constructor returns is sound: its issuers have https URLs, 32-byte keys and
-- different ids, its freshness bound is positive, no cached copy outlives that bound, and its cache is
-- empty.
pub create-IsSound :
    (urls : UrlParser) (config : Config) {r : Resolver}
    → create urls config ≡ ok r
    → IsSound urls r.settings × (r.cache ≡ [])
unfolding create
create-IsSound urls config h =
    let (_, _, h₁) = >>=-eq-ok (require_issuers config.issuers) _ h in
    let (all, pinned, h₂) = >>=-eq-ok (pin_issuers urls [] config.issuers) _ h₁ in
    let (max_age, positive, h₃) =
      >>=-eq-ok (positive_bound (or_else config.max_age_seconds (nat 300))) _ h₂ in
    let (short, h₄) = guard-eq-ok (leb (or_else config.cache_ttl_seconds 60) max_age) _ h₃ in
    let (https, distinct) = pin_issuers_sound urls config.issuers [] tt tt pinned in
    subst (λ (r : Resolver). IsSound urls r.settings × (r.cache ≡ [])) (ok-injective h₄)
      (
        record {
          pinned = https;
          distinct = distinct;
          bounded = positive_bound-pos (or_else config.max_age_seconds (nat 300)) positive;
          cache_within = leb→le _ _ short;
        },
        refl,
      )
