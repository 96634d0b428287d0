-- ===== src/Identity/Base64.antt =====
-- The base64url and multibase codecs of packages/identity/src/status-list.ts. A string is the list
-- of its code units and a byte array the list of its bytes. `acc` is a 32-bit word, as the shifts
-- make it: `(acc << 6) | v` adds `v < 64` to six zero bits.
mod Groups
pub mod RoundTrip
pub mod Canonical
use stellar_onramp.Base.{
  ℕ, suc, ◌+◌, ◌-◌, ◌*◌, ◌/◌, ◌%◌, ◌^◌, Bool, not, ◌&&◌, List, [], ◌∷◌, ◌++◌, Option, none, some,
  ltb, leb, ◌==◌, if◌then◌else◌, length, get_or, Result, ok, err, ◌>>=◌, ◌>>◌, guard, or_throw,
  Bytes, Text, codes,
}
use stellar_onramp.Identity.StatusListError.{
  StatusListError, impossible_length, not_base64url, trailing_bits, length_miscount,
  empty_multibase, wrong_prefix,
}

abbrev pub b64url_alphabet : Text
b64url_alphabet = codes "ABCDEFGHIJKLMNOPQRSTUVWXYZabcdefghijklmnopqrstuvwxyz0123456789-_"

index_from : ℕ → Text → ℕ → Option ℕ
index_from i [] c = none
index_from i (a ∷ as') c = if a == c then some i else index_from (suc i) as' c

-- `B64URL_REVERSE[code]`, where -1 and a code past the table are `none`.
unfoldable pub b64url_reverse : ℕ → Option ℕ
unfolding index_from
b64url_reverse code = if ltb code 128 then index_from 0 b64url_alphabet code else none

-- `B64URL_ALPHABET.charAt(sextet)`; every caller passes a number below 64.
pub b64char : ℕ → ℕ
b64char sextet = get_or b64url_alphabet sextet 0

-- The variables of the loop of `base64urlDecode`; `out` holds the bytes written so far.
pub record Decoder : Type 0 where
  pub acc : ℕ
  pub bits : ℕ
  pub out : Bytes

-- The body of the loop, once the character has its value.
unfoldable pub push : Decoder → ℕ → Decoder
push d v =
    let word = (d.acc * 64 + v) % 2 ^ 32 in
    let held = d.bits + 6 in
    if leb 8 held
    then record d { acc = word; bits = held - 8; out = d.out ++ (word / 2 ^ (held - 8) % 256) ∷ [] }
    else record d { acc = word; bits = held }

unfoldable pub step : Decoder → ℕ → Result StatusListError Decoder
step d code = do v ← or_throw (b64url_reverse code) not_base64url; ok (push d v)

unfoldable pub run : Decoder → Text → Result StatusListError Decoder
run d [] = ok d
run d (c ∷ cs) = do d' ← step d c; run d' cs

-- `full * 3 + (rem === 0 ? 0 : rem - 1)`, the size of the array that is allocated.
unfoldable pub decoded_length : ℕ → ℕ
decoded_length n = n / 4 * 3 + (if n % 4 == 0 then 0 else n % 4 - 1)

-- What follows the loop.
unfoldable pub finish : ℕ → Decoder → Result StatusListError Bytes
finish expected d = do
  guard (not (ltb 0 d.bits && not (d.acc % 2 ^ d.bits == 0))) trailing_bits
  guard (length d.out == expected) length_miscount
  ok d.out

abbrev pub fresh : Decoder
fresh = record { acc = 0; bits = 0; out = [] }

unfoldable pub base64url_decode : Text → Result StatusListError Bytes
base64url_decode s = do
  guard (not (length s % 4 == 1)) impossible_length
  d ← run fresh s
  finish (decoded_length (length s)) d

-- Three bytes to four characters, and one or two left over; `|` joins disjoint bits.
unfoldable pub base64url_encode : Bytes → Text
base64url_encode [] = []
base64url_encode (a ∷ []) = b64char (a / 4) ∷ b64char (a * 16 % 64) ∷ []
base64url_encode (a ∷ b ∷ []) =
    b64char (a / 4) ∷ b64char ((a * 16 + b / 16) % 64) ∷ b64char (b * 4 % 64) ∷ []
base64url_encode (a ∷ b ∷ c ∷ rest) =
    let n = a * 65536 + b * 256 + c in
    b64char (n / 2 ^ 18 % 64)
    ∷ b64char (n / 2 ^ 12 % 64)
    ∷ b64char (n / 2 ^ 6 % 64)
    ∷ b64char (n % 64)
    ∷ base64url_encode rest

unfoldable pub multibase_decode : Text → Result StatusListError Bytes
multibase_decode [] = err empty_multibase
multibase_decode (prefix ∷ rest) =
    if prefix == b'u' then base64url_decode rest else err wrong_prefix
