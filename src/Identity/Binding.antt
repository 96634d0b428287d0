-- ===== src/Identity/Binding.antt =====
-- packages/identity/src/binding.ts: what a proof is pinned to. The fields have their declared types;
-- the ledger sequence is any number until it is checked.
pub mod Canonical
use stellar_onramp.Base.{
  ℕ, ◌/◌, ◌%◌, ◌^◌, Bool, true, false, not, ◌&&◌, ◌||◌, [], ◌∷◌, ◌++◌, ◌==◌, leb, length, Result,
  ok, err, ◌>>=◌, ◌>>◌, guard, or_throw, Number, to_nat?, Bytes, Text, codes, within, equal,
  is_hex32,
}
use stellar_onramp.Identity.Hashes.{Hashes}

pub data BindingError : Type 0 where
  bad_nonce bad_wallet_address bad_contract_id bad_network bad_ledger_expiry : BindingError

pub record ProofBinding : Type 0 where
  pub nonce : Text
  pub wallet_address : Text
  pub contract_id : Text
  pub network_passphrase : Text
  pub ledger_expiry : Number

abbrev pub binding_domain : Text
binding_domain = codes "stellaronramp/presentation-binding/v1"

abbrev pub presentation_header_domain : Text
presentation_header_domain = codes "stellaronramp/presentation-header/v1"

-- [A-Z2-7]*
unfoldable pub all_base32 : Text → Bool
all_base32 [] = true
all_base32 (c ∷ cs) = (within b'A' b'Z' c || within b'2' b'7' c) && all_base32 cs

-- [A-Z2-7]{55}$
abbrev pub is_strkey_body : Text → Bool
is_strkey_body cs = length cs == 55 && all_base32 cs

-- /^C[A-Z2-7]{55}$/
abbrev pub is_strkey_c : Text → Bool
is_strkey_c [] = false
is_strkey_c (c ∷ cs) = c == b'C' && is_strkey_body cs

-- /^[GC][A-Z2-7]{55}$/
abbrev pub is_strkey_any : Text → Bool
is_strkey_any [] = false
is_strkey_any (c ∷ cs) = (c == b'G' || c == b'C') && is_strkey_body cs

-- The result is the ledger sequence.
unfoldable pub assert_valid_binding : ProofBinding → Result BindingError ℕ
assert_valid_binding b = do
  guard (is_hex32 b.nonce) bad_nonce
  guard (is_strkey_any b.wallet_address) bad_wallet_address
  guard (is_strkey_c b.contract_id) bad_contract_id
  guard (not (equal b.network_passphrase [])) bad_network
  expiry ← or_throw (to_nat? b.ledger_expiry) bad_ledger_expiry
  guard (leb expiry 4294967295) bad_ledger_expiry
  ok expiry

abbrev pub u32be : ℕ → Bytes
u32be n = (n / 2 ^ 24 % 256) ∷ (n / 2 ^ 16 % 256) ∷ (n / 2 ^ 8 % 256) ∷ (n % 256) ∷ []

module _ (hashes : Hashes) where
  unfoldable pub len_prefixed : Bytes → Bytes
  len_prefixed field = hashes.concat_bytes (u32be (length field) ∷ field ∷ [])

  unfoldable pub canonical_binding_bytes : ProofBinding → Result BindingError Bytes
  canonical_binding_bytes b = do
    expiry ← assert_valid_binding b
    ok (
        hashes.concat_bytes (
          len_prefixed (hashes.utf8_to_bytes binding_domain)
          ∷ len_prefixed (hashes.hex_to_bytes b.nonce)
          ∷ len_prefixed (hashes.utf8_to_bytes b.wallet_address)
          ∷ len_prefixed (hashes.utf8_to_bytes b.contract_id)
          ∷ len_prefixed (hashes.sha256 (hashes.utf8_to_bytes b.network_passphrase))
          ∷ len_prefixed (u32be expiry)
          ∷ []))

  unfoldable pub binding_digest : ProofBinding → Result BindingError Bytes
  binding_digest b = do bytes ← canonical_binding_bytes b; ok (hashes.sha256 bytes)

  unfoldable pub binding_digest_hex : ProofBinding → Result BindingError Text
  binding_digest_hex b = do digest ← binding_digest b; ok (hashes.bytes_to_hex digest)

  unfoldable pub presentation_header_for : ProofBinding → Result BindingError Bytes
  presentation_header_for b = do
    digest ← binding_digest b
    ok (
        hashes.sha256
          (hashes.concat_bytes (hashes.utf8_to_bytes presentation_header_domain ∷ digest ∷ [])))
