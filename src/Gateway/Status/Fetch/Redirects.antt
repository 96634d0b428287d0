-- ===== src/Gateway/Status/Fetch/Redirects.antt =====
-- Where the redirects of `#fetchAndVerify` (packages/gateway/src/status/resolver.ts) may lead.
use mathlib.Core.Path.{subst}
use stellar_onramp.Base.{
  ok-injective, equal_iff, ℕ, zero, suc, ◌+◌, ◌≤◌, true, false, inl, inr, ◌≡◌, arith, Bool-cases,
  ok, >>=-eq-ok, guard-eq-ok, rethrow_as, Text, codes,
}
use stellar_onramp.Gateway.Status.HttpsUrl.{Url, assert_https_url, is_https}
use stellar_onramp.Gateway.Status.Resolution.{credential, Response, Environment}
use stellar_onramp.Gateway.Status.Fetch.{is_redirect, request, next_url, redirect_target, follow}

-- The text is the `href` of an https URL that the parser made of a URL and a `Location` header.
abbrev pub IsHttpsTarget : Environment → Text → Response → Text → Type 0
IsHttpsTarget env url response text =
    (target : Url) × (redirect_target env url response.location ≡ ok target)
    × (target.protocol ≡ codes "https:")
    × (target.href ≡ text)

-- Requests, each after the first to the https URL that the one before redirects to; the count of
-- them, and the last response, which redirects no more.
pub data Chain (env : Environment) : ℕ → Text → ℕ → Response → Type 0 where
  last :
      {hop : ℕ} {url : Text} {response : Response}
      → request env hop url ≡ ok response
      → is_redirect response ≡ false
      → Chain env hop url 1 response
  redirected :
      {hop : ℕ} {url : Text} {count : ℕ} {final : Response} (response : Response) (next : Text)
      → request env hop url ≡ ok response
      → is_redirect response ≡ true
      → IsHttpsTarget env url response next
      → Chain env (hop + 1) next count final
      → Chain env hop url (suc count) final

next_url-IsHttpsTarget :
    (env : Environment) (url : Text) (response : Response) {next : Text}
    → next_url env url response ≡ ok next
    → IsHttpsTarget env url response next
unfolding next_url
next_url-IsHttpsTarget env url response h =
    let (target, found, h₁) = >>=-eq-ok (redirect_target env url response.location) _ h in
    let (https, h₂) = guard-eq-ok (is_https target) _ h₁ in
    let (_, _, h₃) =
      >>=-eq-ok (rethrow_as (assert_https_url env.urls target.href) credential) _ h₂ in
    (target, found, (equal_iff _ _).0 https, ok-injective h₃)

-- Where the loop over the redirects returns, it has made a chain of requests, at most one more than
-- the redirects allowed: each but the first goes to an https URL that the response before it named,
-- and the response that is returned is the last one's, which is no redirect.
pub follow-Chain :
    (env : Environment) (left hop : ℕ) (url : Text) {response : Response}
    → follow env left hop url ≡ ok response
    → (count : ℕ) × (count ≤ left + 1) × Chain env hop url count response
unfolding follow
follow-Chain env zero hop url {response = final} h =
    let (response, got, h₁) = >>=-eq-ok (request env hop url) _ h in
    elim (Bool-cases (is_redirect response)) [
      | inl t ↦ absurd (ground (arith, t, h₁))
      | inr f ↦ (1, ground arith, subst (Chain env hop url 1) (ground (arith, f, h₁)) (last got f))
    ]
follow-Chain env (suc left) hop url {response = final} h =
    let (response, got, h₁) = >>=-eq-ok (request env hop url) _ h in
    elim (Bool-cases (is_redirect response)) [
      | inl t ↦
          let (next, target, h₂) =
            >>=-eq-ok (next_url env url response) (follow env left (hop + 1)) {result = final}
              (ground (arith, t, h₁)) in
          let (count, few, chain) = follow-Chain env left (hop + 1) next h₂ in
          (
            suc count,
            ground (arith, few),
            redirected response next got t (next_url-IsHttpsTarget env url response target) chain,
          )
      | inr f ↦ (1, ground arith, subst (Chain env hop url 1) (ground (arith, f, h₁)) (last got f))
    ]
