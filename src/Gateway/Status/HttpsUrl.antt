-- ===== src/Gateway/Status/HttpsUrl.antt =====
-- `assertHttpsUrl` of packages/gateway/src/status/publisher.ts. The WHATWG parser is a parameter.
use stellar_onramp.Base.{
  Bool, ◌&&◌, Option, [], ◌∷◌, Result, ok, err, ◌>>=◌, ◌>>◌, guard, or_throw, Text, codes, equal,
}
use stellar_onramp.Gateway.Status.CredentialError.{
  CredentialError, url_not_string, url_not_absolute, url_not_https, url_with_credentials,
}

-- The properties of a `URL` that the code reads; `href` is what `toString()` returns.
pub record Url : Type 0 where
  pub protocol : Text
  pub username : Text
  pub password : Text
  pub href : Text

-- `new URL(raw)` and `new URL(location, base)`; none where the constructor throws.
pub record UrlParser : Type 0 where
  pub parse : Text → Option Url
  pub resolve : Text → Text → Option Url

abbrev pub is_https : Url → Bool
is_https url = equal url.protocol (codes "https:")

abbrev pub has_no_credentials : Url → Bool
has_no_credentials url = equal url.username [] && equal url.password []

unfoldable pub assert_https_url : UrlParser → Text → Result CredentialError Url
assert_https_url urls [] = err url_not_string
assert_https_url urls (c ∷ cs) = do
  url ← or_throw (urls.parse (c ∷ cs)) url_not_absolute
  guard (is_https url) url_not_https
  guard (has_no_credentials url) url_with_credentials
  ok url
