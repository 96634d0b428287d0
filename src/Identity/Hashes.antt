-- ===== src/Identity/Hashes.antt =====
-- What packages/identity/src calls of @noble/hashes, as parameters, and what is relied on.
use stellar_onramp.Base.{◌<◌, ◌≡◌, true, List, All, length, Bytes, Text, is_hex32}
use stellar_onramp.Identity.Gzip.{join}

pub record Hashes : Type 0 where
  pub sha256 : Bytes → Bytes
  pub utf8_to_bytes : Text → Bytes
  pub hex_to_bytes : Text → Bytes
  pub bytes_to_hex : Bytes → Text
  pub concat_bytes : List Bytes → Bytes

abbrev pub IsAscii : Text → Type 0
IsAscii = All (λ c. c < 128)

-- Documented behaviour: a digest has 32 bytes, UTF-8 keeps ASCII as it is, and hexadecimal digits
-- stand for bytes one to one.
pub record IsNoble (hashes : Hashes) : Type 0 where
  pub digest_length : (bytes : Bytes) → length (hashes.sha256 bytes) ≡ 32
  pub utf8_ascii : (text : Text) → IsAscii text → hashes.utf8_to_bytes text ≡ text
  pub hex_length : (text : Text) → is_hex32 text ≡ true → length (hashes.hex_to_bytes text) ≡ 32
  pub hex_injective :
      (a b : Text)
      → is_hex32 a ≡ true
      → is_hex32 b ≡ true
      → hashes.hex_to_bytes a ≡ hashes.hex_to_bytes b
      → a ≡ b
  pub concat_join : (parts : List Bytes) → hashes.concat_bytes parts ≡ join parts
