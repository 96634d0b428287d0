-- ===== src/Gateway/Status/Resolver/Served.antt =====
-- What `resolve` (packages/gateway/src/status/resolver.ts) serves, and what it leaves behind.
use stellar_onramp.Base.{
  ℕ, ◌+◌, ◌≤◌, ◌<◌, true, Option, none, some, inl, inr, ◌⊎◌, ◌≡◌, refl, arith, Result-cases, ok,
  err, Text, equal_iff, Bool-cases, Option-cases, ap, sym, ◌∙◌,
}
use stellar_onramp.Identity.StatusList.{StatusList, StatusPurpose, purpose_name}
use stellar_onramp.Gateway.Status.Fetch.{CacheEntry, fetch_and_verify}
use stellar_onramp.Gateway.Status.Resolution.{Refusal, PinnedIssuer, Environment}
use stellar_onramp.Gateway.Status.Resolver.{
  Settings, Resolver, StatusListRequest, find_issuer, cache_get, cache_set, or_default, is_recent,
  assert_temporally_usable, assert_purpose, serve_cached, serve_fetched, serve, resolve,
}

-- A list document may be served now, for this purpose.
pub record IsUsable (settings : Settings) (purpose : StatusPurpose) (now : ℕ) (entry : CacheEntry)
    : Type 0 where
  pub begun : entry.valid_from_seconds ≤ now + 60
  pub unexpired : now < entry.valid_until_seconds
  pub fresh : now ≤ entry.valid_from_seconds + settings.max_age
  pub for_purpose : entry.list.status_purpose ≡ purpose_name purpose

-- Where the entry that is served came from, and what became of the cache.
abbrev pub IsFrom : Environment → PinnedIssuer → ℕ → Resolver → Resolver → CacheEntry → Type 0
IsFrom env pinned now r r' entry =
    ((cache_get pinned.url r.cache ≡ some entry)
      × (now < entry.fetched_at_seconds + r.cache_ttl)
      × (r'.cache ≡ r.cache))
    ⊎ ((fetch_and_verify env pinned r.max_redirects r.max_bytes now ≡ ok entry)
        × (r'.cache ≡ cache_set pinned.url entry r.cache))

-- What one resolution for the pinned issuer serves.
pub record Serves (env : Environment) (pinned : PinnedIssuer) (purpose : StatusPurpose) (now : ℕ)
    (r r' : Resolver) (list : StatusList) : Type 0 where
  pub entry : CacheEntry
  pub served : entry.list ≡ list
  pub usable : IsUsable r.settings purpose now entry
  pub source : IsFrom env pinned now r r' entry
  pub settled : r'.settings ≡ r.settings

module _ (env : Environment) (pinned : PinnedIssuer) (id : Text) (purpose : StatusPurpose) (now : ℕ)
    (r : Resolver) where
  serve_cached-Serves :
      (cached : CacheEntry) {r' : Resolver} {list : StatusList}
      → cache_get pinned.url r.cache ≡ some cached
      → is_recent r.settings now cached ≡ true
      → serve_cached pinned id purpose now cached r ≡ (r', ok list)
      → Serves env pinned purpose now r r' list
  unfolding serve_cached is_recent assert_temporally_usable assert_purpose
  serve_cached-Serves cached got recent h = record {
    entry = cached;
    served = ground (arith, h);
    usable = record {
      begun = ground (arith, h);
      unexpired = ground (arith, h);
      fresh = ground (arith, h);
      for_purpose = (equal_iff _ _).0 (ground (arith, h));
    };
    source = inl (got, ground (arith, recent), ground (arith, h));
    settled = ground (arith, h);
  }

  serve_fetched-Serves :
      {r' : Resolver} {list : StatusList}
      → serve_fetched env pinned id purpose now r ≡ (r', ok list)
      → Serves env pinned purpose now r r' list
  unfolding serve_fetched assert_temporally_usable assert_purpose
  serve_fetched-Serves h =
      elim (Result-cases (fetch_and_verify env pinned r.max_redirects r.max_bytes now)) [
        | inl (entry, e) ↦ record {
          entry = entry;
          served = ground (arith, e, h);
          usable = record {
            begun = ground (arith, e, h);
            unexpired = ground (arith, e, h);
            fresh = ground (arith, e, h);
            for_purpose = (equal_iff _ _).0 (ground (arith, e, h));
          };
          source = inr (e, ground (arith, e, h));
          settled = ground (arith, e, h);
        }
        | inr (e', e) ↦ absurd (ground (arith, e, h))
      ]

  serve_cached-error :
      (cached : CacheEntry) {r' : Resolver} {e : Refusal}
      → serve_cached pinned id purpose now cached r ≡ (r', err e)
      → r' ≡ r
  unfolding serve_cached assert_temporally_usable assert_purpose
  serve_cached-error cached h = ground (arith, h)

  serve_fetched-error :
      {r' : Resolver} {e : Refusal}
      → serve_fetched env pinned id purpose now r ≡ (r', err e)
      → r' ≡ r
  unfolding serve_fetched assert_temporally_usable assert_purpose
  serve_fetched-error h =
      elim (Result-cases (fetch_and_verify env pinned r.max_redirects r.max_bytes now)) [
        | inl (entry, e) ↦ ground (arith, e, h)
        | inr (e', e) ↦ ground (arith, e, h)
      ]

serve-Serves :
    (env : Environment) (pinned : PinnedIssuer) (id : Text) (purpose : StatusPurpose) (now : ℕ)
    (r : Resolver) (cached : Option CacheEntry) {r' : Resolver} {list : StatusList}
    → cache_get pinned.url r.cache ≡ cached
    → serve env pinned id purpose now cached r ≡ (r', ok list)
    → Serves env pinned purpose now r r' list
unfolding serve
serve-Serves env pinned id purpose now r none e h =
    serve_fetched-Serves env pinned id purpose now r h
serve-Serves env pinned id purpose now r (some cached) e h =
    elim (Bool-cases (is_recent r.settings now cached)) [
      | inl t ↦ serve_cached-Serves env pinned id purpose now r cached e t (ground (arith, t, h))
      | inr f ↦ serve_fetched-Serves env pinned id purpose now r (ground (arith, f, h))
    ]

serve-error :
    (env : Environment) (pinned : PinnedIssuer) (id : Text) (purpose : StatusPurpose) (now : ℕ)
    (r : Resolver) (cached : Option CacheEntry) {r' : Resolver} {e : Refusal}
    → serve env pinned id purpose now cached r ≡ (r', err e)
    → r' ≡ r
unfolding serve
serve-error env pinned id purpose now r none {e = err_e} h =
    serve_fetched-error env pinned id purpose now r h
serve-error env pinned id purpose now r (some cached) {e = err_e} h =
    elim (Bool-cases (is_recent r.settings now cached)) [
      | inl t ↦
          serve_cached-error env pinned id purpose now r cached {e = err_e} (ground (arith, t, h))
      | inr f ↦ serve_fetched-error env pinned id purpose now r {e = err_e} (ground (arith, f, h))
    ]

-- The issuer that a request names, or the default, by its id.
abbrev pub Asks : Resolver → StatusListRequest → PinnedIssuer → Type 0
Asks r request pinned =
    (id : Text) × (or_default request.issuer_id r.default_issuer_id ≡ some id)
    × (find_issuer id r.issuers ≡ some pinned)

-- A list that `resolve` returns is that of a pinned issuer, named by the request or the default; at
-- the time of the call it has begun (60 seconds of skew allowed) and not expired, it is no older than
-- the freshness bound and it has the purpose asked for. It comes from a cached copy younger than the
-- cache bound, and the cache stays; or it was fetched and verified now, and replaces the cached copy.
pub resolve-Serves :
    (env : Environment) (request : StatusListRequest) (now : ℕ) (r : Resolver) {r' : Resolver}
    {list : StatusList}
    → resolve env request now r ≡ (r', ok list)
    → (pinned : PinnedIssuer) × Asks r request pinned
      × Serves env pinned request.status_purpose now r r' list
unfolding resolve
resolve-Serves env request now r h =
    elim (Option-cases (or_default request.issuer_id r.default_issuer_id)) [
      | inl none_e ↦ absurd (ground (arith, none_e, h))
      | inr (id, e) ↦ elim (Option-cases (find_issuer id r.issuers)) [
        | inl none_f ↦ absurd (ground (arith, e, none_f, h))
        | inr (pinned, f) ↦ (
          pinned,
          (id, e, f),
          serve-Serves env pinned id request.status_purpose now r (cache_get pinned.url r.cache)
              refl (ground (arith, e, f, h)),
        )
      ]
    ]

-- A resolution that is refused, for whatever reason, leaves the resolver as it was: its cache, its
-- last provenance and its settings.
pub resolve-error :
    (env : Environment) (request : StatusListRequest) (now : ℕ) (r : Resolver) {r' : Resolver}
    {e : Refusal}
    → resolve env request now r ≡ (r', err e)
    → r' ≡ r
unfolding resolve
resolve-error env request now r {e = err_e} h =
    elim (Option-cases (or_default request.issuer_id r.default_issuer_id)) [
      | inl none_e ↦ ground (arith, none_e, h)
      | inr (id, e) ↦ elim (Option-cases (find_issuer id r.issuers)) [
        | inl none_f ↦ ground (arith, e, none_f, h)
        | inr (pinned, f) ↦
            serve-error env pinned id request.status_purpose now r (cache_get pinned.url r.cache)
              {e = err_e} (ground (arith, e, f, h))
      ]
    ]

-- A cached copy younger than the cache bound answers without the network, and for its URL alone: two
-- pinned issuers that share a URL are given one answer, whichever of them the copy was verified for.
pub resolve-shared :
    (env env' : Environment) (a b : Text) (p q : PinnedIssuer) (purpose : StatusPurpose) (now : ℕ)
    (r : Resolver) (entry : CacheEntry)
    → find_issuer a r.issuers ≡ some p
    → find_issuer b r.issuers ≡ some q
    → p.url ≡ q.url
    → cache_get p.url r.cache ≡ some entry
    → is_recent r.settings now entry ≡ true
    → (resolve env (record { issuer_id = some a; status_purpose = purpose }) now r).1
      ≡ (resolve env' (record { issuer_id = some b; status_purpose = purpose }) now r).1
unfolding resolve serve or_default serve_cached assert_temporally_usable assert_purpose
resolve-shared env env' a b p q purpose now r entry ea eb url got recent =
    let got' = ap (λ u. cache_get u r.cache) (sym url) ∙ got in
    ground (arith, ea, eb, got, got', recent)
