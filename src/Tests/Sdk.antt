-- ===== src/Tests/Sdk.antt =====
-- Runs of packages/sdk/src.
use stellar_onramp.Base.{◌+◌, ◌*◌, ◌&&◌, ◌≡◌, refl, some, none, map, nat, is_member}
use stellar_onramp.Gateway.Kyc.Claims.Bitmap.{bit_value}
use stellar_onramp.Sdk.Grants.{derive_granted_claims}
use stellar_onramp.Sdk.Grants.Agree.{derive_granted_claims-bits}
use stellar_onramp.Sdk.Expiry.{proof_max_window, max_expiry_horizon, add_double, expiry_after}
use stellar_onramp.Sdk.Expiry.Window.{IsWithin, ledger_expiry_for-IsWithin}
use stellar_onramp.Tests.Presentation.{
  hashes, bbs, secret_key, kyc_claims, nonce_binding, audit, issued, derived, normal,
}

derive_granted_claims-bits_example :
    derive_granted_claims derived.0
    ≡ bit_value (is_member 6 audit && kyc_claims.over18)
      + 2 * bit_value (is_member 7 audit && kyc_claims.over21)
      + 4 * bit_value (is_member 8 audit && kyc_claims.not_sanctioned)
      + 8 * bit_value (is_member 10 audit && kyc_claims.jurisdiction_ok)
derive_granted_claims-bits_example =
    derive_granted_claims-bits hashes bbs kyc_claims secret_key issued.0 (map nat audit)
      nonce_binding derived.0 audit issued.1 derived.1 normal

ledger_expiry_for-IsWithin_example :
    IsWithin (some (nat 100)) proof_max_window 820
    × IsWithin (some (nat 100)) max_expiry_horizon 107
unfolding expiry_after add_double
ledger_expiry_for-IsWithin_example =
    ledger_expiry_for-IsWithin (some (nat 100)) none (nat 7) refl refl
