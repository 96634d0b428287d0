-- ===== src/Gateway/Kyc/Claims/Bitmap.antt =====
-- The bitmap of packages/gateway/src/kyc/claims.ts against the bits that the contract documents.
use stellar_onramp.Base.{ℕ, ◌+◌, ◌*◌, Bool, true, false, ◌≡◌, arith}
use stellar_onramp.Gateway.Kyc.Claims.{ClaimSet, claim_bitmap, fold_claims}

abbrev pub bit_value : Bool → ℕ
bit_value true = 1
bit_value false = 0

-- The bitmap holds the four claims in the bits 0 to 3, in the order of the contract, and no other
-- bit; the two claims that only the credential carries leave no trace in it.
pub claim_bitmap-bits :
    (claims : ClaimSet)
    → claim_bitmap claims
      ≡ bit_value claims.over18
        + 2 * bit_value claims.over21
        + 4 * bit_value claims.not_sanctioned
        + 8 * bit_value claims.jurisdiction_ok
unfolding claim_bitmap fold_claims
claim_bitmap-bits claims = ground arith
