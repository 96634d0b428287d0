-- ===== src/Identity/SubjectBinding.antt =====
-- `computeSubjectBinding` of packages/identity/src/schema.ts, by which a credential names its wallet.
use stellar_onramp.Base.{[], ◌∷◌, ◌==◌, length, Result, ok, ◌>>◌, guard, ℕ, Bytes, Text}
use stellar_onramp.Identity.Hashes.{Hashes}
use stellar_onramp.Identity.Schema.{SchemaError, bad_wallet, bad_salt}
use stellar_onramp.Identity.Binding.{is_strkey_any}

abbrev pub subject_binding_salt_bytes : ℕ
subject_binding_salt_bytes = 32

unfoldable pub compute_subject_binding : Hashes → Text → Bytes → Result SchemaError Text
compute_subject_binding hashes wallet_address salt = do
  guard (is_strkey_any wallet_address) bad_wallet
  guard (length salt == subject_binding_salt_bytes) bad_salt
  ok (
      hashes.bytes_to_hex
        (hashes.sha256 (hashes.concat_bytes (hashes.utf8_to_bytes wallet_address ∷ salt ∷ []))))
