-- ===== src/Gateway/Status/Credential/Date.antt =====
-- `parseXsdDateTime` of packages/gateway/src/status/credential.ts. `Date.parse` is a parameter.
-- Instants are milliseconds counted from an origin before the year 0000 that is a whole number of
-- seconds from 1970, so that all of them are natural numbers; the code compares instants only with
-- one another and with a clock in the same unit.
use stellar_onramp.Base.{
  ℕ, zero, suc, ◌/◌, Bool, false, ◌&&◌, [], ◌∷◌, Option, ◌==◌, Result, ok, ◌>>=◌, ◌>>◌, guard,
  or_throw, Text, within, if◌then◌else◌,
}
use stellar_onramp.Gateway.Status.CredentialError.{CredentialError, not_date_time, not_an_instant}

is_digit : ℕ → Bool
is_digit c = within b'0' b'9' c

-- The end of the pattern: at most `room` more digits of the fraction, then `Z`.
fraction : ℕ → Text → Bool
unfolding is_digit
fraction zero (z ∷ []) = z == b'Z'
fraction zero _ = false
fraction (suc room) [] = false
fraction (suc room) (z ∷ []) = z == b'Z'
fraction (suc room) (c ∷ cs) = is_digit c && fraction room cs

-- `(\.\d{1,9})?Z$`
ending : Text → Bool
unfolding fraction is_digit
ending (z ∷ []) = z == b'Z'
ending (dot ∷ digit ∷ rest) = dot == b'.' && is_digit digit && fraction 8 rest
ending [] = false

-- `d` stands for a digit, any other character for itself.
shape : Text → Text → (Text → Bool) → Bool
unfolding is_digit
shape [] text continue = continue text
shape (p ∷ ps) [] continue = false
shape (p ∷ ps) (c ∷ cs) continue =
    (if p == b'd' then is_digit c else c == p) && shape ps cs continue

-- /^\d{4}-\d{2}-\d{2}T\d{2}:\d{2}:\d{2}(\.\d{1,9})?Z$/
unfoldable pub is_xsd_date_time : Text → Bool
unfolding shape ending
is_xsd_date_time text =
    shape
      (b'd' ∷ b'd' ∷ b'd' ∷ b'd' ∷ b'-' ∷ b'd' ∷ b'd' ∷ b'-' ∷ b'd' ∷ b'd' ∷ b'T' ∷ b'd' ∷ b'd'
        ∷ b':' ∷ b'd' ∷ b'd' ∷ b':' ∷ b'd' ∷ b'd' ∷ [])
      text ending

-- The result is in seconds.
unfoldable pub parse_xsd_date_time : (Text → Option ℕ) → Text → Result CredentialError ℕ
parse_xsd_date_time date_parse text = do
  guard (is_xsd_date_time text) not_date_time
  ms ← or_throw (date_parse text) not_an_instant
  ok (ms / 1000)
