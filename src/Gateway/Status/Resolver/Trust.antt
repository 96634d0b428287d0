-- ===== src/Gateway/Status/Resolver/Trust.antt =====
-- Where the documents in the cache of a resolver (packages/gateway/src/status/resolver.ts) come from.
use mathlib.Core.Path.{subst}
use stellar_onramp.Base.{
  if-cases, ℕ, ◌<◌, List, [], ◌∷◌, Option, some, ltb, leb, inl, inr, ◌≡◌, refl, arith, Result-cases,
  ok, Text, equal, equal_iff, Bool-cases, ap, sym, >>=-eq-ok, ok-injective, or_throw-eq-ok,
  guard-eq-ok, rethrow_as-eq-ok, ltb→lt, All, rethrow_as, length, ◌==◌,
}
use stellar_onramp.Identity.Gzip.{GzipStreams}
use stellar_onramp.Identity.StatusList.{StatusList, decode_status_list, object, DecodedStatusList}
use stellar_onramp.Gateway.Status.HttpsUrl.{assert_https_url}
use stellar_onramp.Gateway.Status.Canonical.{JsonValue, Signatures}
use stellar_onramp.Gateway.Status.Credential.{verify_status_list_credential}
use stellar_onramp.Gateway.Status.Credential.Date.{parse_xsd_date_time}
use stellar_onramp.Gateway.Status.Credential.Verified.{IsVerified, verify-IsVerified}
use stellar_onramp.Gateway.Status.Fetch.{
  CacheEntry, accept, expected_of, follow, as_purpose, fetch_and_verify,
}
use stellar_onramp.Gateway.Status.Resolution.{
  resolution, credential, status_list, proof_invalid, PinnedIssuer, Environment, Response, Fetch,
}
use stellar_onramp.Gateway.Status.Resolver.{
  Settings, Resolver, StatusListRequest, find_issuer, cache_get, cache_set, resolve, invalidate,
}
use stellar_onramp.Gateway.Status.Resolver.Create.{Config, create, create-IsSound}
use stellar_onramp.Gateway.Status.Resolver.Served.{
  IsUsable, Serves, Asks, resolve-Serves, resolve-error,
}

-- The entry holds a document that was verified for this issuer, whose dates are in order and whose
-- list decodes.
pub record IsVouchedBy (signatures : Signatures) (date_parse : Text → Option ℕ)
    (streams : GzipStreams) (pinned : PinnedIssuer) (entry : CacheEntry) : Type 0 where
  pub received : JsonValue
  pub verified : IsVerified signatures received (expected_of pinned) entry.document
  pub from : parse_xsd_date_time date_parse entry.document.valid_from ≡ ok entry.valid_from_seconds
  pub until :
      parse_xsd_date_time date_parse entry.document.valid_until ≡ ok entry.valid_until_seconds
  pub in_order : entry.valid_from_seconds < entry.valid_until_seconds
  pub carried : entry.document.list ≡ entry.list
  pub decoded : DecodedStatusList
  pub decodes :
      decode_status_list streams (object entry.list) (as_purpose entry.list.status_purpose)
      ≡ ok decoded

abbrev pub IsVouched : Environment → PinnedIssuer → CacheEntry → Type 0
IsVouched env = IsVouchedBy env.signatures env.date_parse env.streams

accept-IsVouched :
    (env : Environment) (pinned : PinnedIssuer) (max_bytes now : ℕ) (response : Response)
    {entry : CacheEntry}
    → accept env pinned max_bytes now response ≡ ok entry
    → IsVouched env pinned entry × (entry.fetched_at_seconds ≡ now)
unfolding accept
accept-IsVouched env pinned max_bytes now response h =
    let (_, h₁) = guard-eq-ok (response.status == 200) _ h in
    let (_, h₂) = guard-eq-ok (leb (length response.body) max_bytes) _ h₁ in
    let (parsed, _, h₃) = or_throw-eq-ok (env.parse_json response.body) _ _ h₂ in
    let (document, v, h₄) =
      >>=-eq-ok
        (rethrow_as (verify_status_list_credential env.signatures parsed (expected_of pinned))
          (λ e. resolution proof_invalid))
        _ h₃ in
    let (from, f, h₅) =
      >>=-eq-ok (rethrow_as (parse_xsd_date_time env.date_parse document.valid_from) credential) _
        h₄ in
    let (until, u, h₆) =
      >>=-eq-ok (rethrow_as (parse_xsd_date_time env.date_parse document.valid_until) credential) _
        h₅ in
    let (lt, h₇) = guard-eq-ok (ltb from until) _ h₆ in
    let (decoded, d, h₈) =
      >>=-eq-ok
        (rethrow_as
          (decode_status_list env.streams (object document.list)
            (as_purpose document.list.status_purpose))
          status_list)
        _ h₇ in
    subst (λ entry. IsVouched env pinned entry × (entry.fetched_at_seconds ≡ now)) (ok-injective h₈)
      (
        record {
          received = parsed;
          verified =
              verify-IsVerified env.signatures parsed (expected_of pinned) (rethrow_as-eq-ok _ _ v);
          from = rethrow_as-eq-ok _ _ f;
          until = rethrow_as-eq-ok _ _ u;
          in_order = ltb→lt _ _ lt;
          carried = refl;
          decoded = decoded;
          decodes = rethrow_as-eq-ok _ _ d;
        },
        refl,
      )

fetch_and_verify-IsVouched :
    (env : Environment) (pinned : PinnedIssuer) (max_redirects max_bytes now : ℕ)
    {entry : CacheEntry}
    → fetch_and_verify env pinned max_redirects max_bytes now ≡ ok entry
    → IsVouched env pinned entry
unfolding fetch_and_verify
fetch_and_verify-IsVouched env pinned max_redirects max_bytes now h =
    let (url, _, h₁) =
      >>=-eq-ok (rethrow_as (assert_https_url env.urls pinned.url) credential) _ h in
    let (response, _, h₂) = >>=-eq-ok (follow env max_redirects 0 url.href) _ h₁ in
    (accept-IsVouched env pinned max_bytes now response h₂).0

-- The entry was verified for an issuer that is pinned at this URL.
abbrev pub IsTrusted : Environment → Settings → Text → CacheEntry → Type 0
IsTrusted env settings url entry =
    (id : Text) × (pinned : PinnedIssuer) × (find_issuer id settings.issuers ≡ some pinned)
    × (pinned.url ≡ url)
    × IsVouched env pinned entry

abbrev pub AllTrusted : Environment → Resolver → Type 0
AllTrusted env r = All (λ (p : Text × CacheEntry). IsTrusted env r.settings p.0 p.1) r.cache

cache_get-All :
    (P : Text → CacheEntry → Type 0) (url : Text) (cache : List (Text × CacheEntry))
    {entry : CacheEntry}
    → All (λ (p : Text × CacheEntry). P p.0 p.1) cache
    → cache_get url cache ≡ some entry
    → P url entry
unfolding cache_get
cache_get-All P url [] h e = absurd (cc)
cache_get-All P url ((key, old) ∷ cache) (p, ps) e = elim (Bool-cases (equal key url)) [
  | inl t ↦
      let same : old ≡ _ = ground (arith, t, e) in
      subst (P url) same (subst (λ k. P k old) ((equal_iff key url).0 t) p)
  | inr f ↦ cache_get-All P url cache ps (ground (arith, f, e))
]

cache_set-All :
    (P : Text → CacheEntry → Type 0) (url : Text) (entry : CacheEntry)
    (cache : List (Text × CacheEntry))
    → P url entry
    → All (λ (p : Text × CacheEntry). P p.0 p.1) cache
    → All (λ (p : Text × CacheEntry). P p.0 p.1) (cache_set url entry cache)
unfolding cache_set
cache_set-All P url entry [] p h = (p, tt)
cache_set-All P url entry ((key, old) ∷ cache) p (q, qs) =
    if-cases (All (λ (p : Text × CacheEntry). P p.0 p.1)) (equal key url) ((key, entry) ∷ cache)
      ((key, old) ∷ cache_set url entry cache)
      (λ t. (subst (λ k. P k entry) (sym ((equal_iff key url).0 t)) p, qs))
      (λ f. (q, cache_set-All P url entry cache p qs))

-- What one resolution serves is vouched for, by an issuer pinned at the URL of the one asked.
Serves-IsTrusted :
    (env : Environment) (request : StatusListRequest) (now : ℕ) (r : Resolver) {r' : Resolver}
    {list : StatusList}
    → AllTrusted env r
    → (pinned : PinnedIssuer) → Asks r request pinned
    → (s : Serves env pinned request.status_purpose now r r' list)
    → IsTrusted env r.settings pinned.url s.entry
Serves-IsTrusted env request now r h pinned (id, _, known) s = elim s.source [
  | inl (got, _, _) ↦ cache_get-All (IsTrusted env r.settings) pinned.url r.cache h got
  | inr (fetched, _) ↦ (
    id,
    pinned,
    known,
    refl,
    fetch_and_verify-IsVouched env pinned r.max_redirects r.max_bytes now fetched,
  )
]

resolve-AllTrusted :
    (env : Environment) (request : StatusListRequest) (now : ℕ) (r : Resolver)
    → AllTrusted env r
    → AllTrusted env (resolve env request now r).0
resolve-AllTrusted env request now r h =
    let p = resolve env request now r in
    elim (Result-cases p.1) [
      | inl (list, e) ↦
          let (pinned, asks, s) =
            resolve-Serves env request now r {r' = p.0} (ap (λ x. (p.0, x)) e) in
          let trusted = Serves-IsTrusted env request now r h pinned asks s in
          subst
            (λ settings. All (λ (q : Text × CacheEntry). IsTrusted env settings q.0 q.1) p.0.cache)
            (sym s.settled)
            (elim s.source [
              | inl (_, _, kept) ↦
                  subst (All (λ (q : Text × CacheEntry). IsTrusted env r.settings q.0 q.1))
                    (sym kept) h
              | inr (_, set) ↦
                  subst (All (λ (q : Text × CacheEntry). IsTrusted env r.settings q.0 q.1))
                    (sym set)
                    (cache_set-All (IsTrusted env r.settings) pinned.url s.entry r.cache trusted h)
            ])
      | inr (e', e) ↦
          subst (AllTrusted env) (sym (resolve-error env request now r (ap (λ x. (p.0, x)) e))) h
    ]

-- What a run of the program makes of a resolver: the constructor, then calls of its methods, each
-- with a network and a clock of its own.
pub data IsReachable (env : Environment) : Resolver → Type 0 where
  created : (config : Config) {r : Resolver} → create env.urls config ≡ ok r → IsReachable env r
  resolved :
      {r : Resolver} (get : ℕ → Text → Fetch) (request : StatusListRequest) (now : ℕ)
      → IsReachable env r
      → IsReachable env (resolve (record env { get = get }) request now r).0
  invalidated : {r : Resolver} → IsReachable env r → IsReachable env (invalidate r)

-- In every state that a resolver can reach, each cached document was verified for an issuer that it
-- pins at the URL under which the document is kept; its dates are in order and its list decodes.
pub reachable-AllTrusted : (env : Environment) {r : Resolver} → IsReachable env r → AllTrusted env r
unfolding invalidate
reachable-AllTrusted env (created config {r} h) =
    let (_, empty) = create-IsSound env.urls config h in
    subst (All (λ (q : Text × CacheEntry). IsTrusted env r.settings q.0 q.1)) (sym empty) tt
reachable-AllTrusted env (resolved {r} get request now h) =
    resolve-AllTrusted (record env { get = get }) request now r (reachable-AllTrusted env h)
reachable-AllTrusted env (invalidated h) = tt

-- Pinned issuers that share a URL are one.
abbrev pub HaveOwnUrls : Settings → Type 0
HaveOwnUrls settings =
    (a b : Text) (p q : PinnedIssuer)
    → find_issuer a settings.issuers ≡ some p
    → find_issuer b settings.issuers ≡ some q
    → p.url ≡ q.url
    → p ≡ q

-- Where no two pinned issuers share a URL, every list that a reachable resolver serves was verified
-- for the very issuer that the request names or the default: its key signed it.
pub resolve-IsVouched :
    (env : Environment) (request : StatusListRequest) (now : ℕ) (r : Resolver) {r' : Resolver}
    {list : StatusList}
    → IsReachable env r
    → HaveOwnUrls r.settings
    → resolve env request now r ≡ (r', ok list)
    → (pinned : PinnedIssuer) × Asks r request pinned
      × ((entry : CacheEntry) × (entry.list ≡ list)
          × IsUsable r.settings request.status_purpose now entry
          × IsVouched env pinned entry)
resolve-IsVouched env request now r reach own h =
    let (pinned, asks, s) = resolve-Serves env request now r h in
    let (id, _, known) = asks in
    let (other, p, known', url, vouched) =
      Serves-IsTrusted env request now r (reachable-AllTrusted env reach) pinned asks s in
    (
      pinned,
      asks,
      (
        s.entry,
        s.served,
        s.usable,
        subst (λ q. IsVouched env q s.entry) (own other id p pinned known' known url) vouched,
      ),
    )
