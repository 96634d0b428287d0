-- ===== src/Sdk/Grants.antt =====
-- `deriveGrantedClaims` of packages/sdk/src/attest/grants.ts.
pub mod Agree
use stellar_onramp.Base.{
  ℕ, bit_or, ◌==◌, Bool, true, false, List, [], ◌∷◌, Option, none, some, get_elem?, if◌then◌else◌,
  Number, nat, Text, codes, equal,
}
use stellar_onramp.Identity.Schema.{ClaimName, claim_index}
use stellar_onramp.Identity.Credential.{Proof}

-- The index, the message and the bit of a claim of the contract.
abbrev pub Grant : Type 0
Grant = ℕ × Text × ℕ

abbrev pub attest_grants : List Grant
attest_grants =
    (claim_index ClaimName.over18, codes "over18=true", 1)
    ∷ (claim_index ClaimName.over21, codes "over21=true", 2)
    ∷ (claim_index ClaimName.not_sanctioned, codes "notSanctioned=true", 4)
    ∷ (claim_index ClaimName.jurisdiction_ok, codes "jurisdictionOk=true", 8)
    ∷ []

-- `proof.disclosedMessages[proof.disclosedIndexes.indexOf(index)]`
unfoldable pub message_for : ℕ → List Number → List Text → Option Text
message_for index [] messages = none
message_for index (nat i ∷ indexes) [] =
    let rest = message_for index indexes [] in if i == index then none else rest
message_for index (nat i ∷ indexes) (m ∷ messages) =
    let rest = message_for index indexes messages in if i == index then some m else rest
message_for index (_ ∷ indexes) [] = message_for index indexes []
message_for index (_ ∷ indexes) (m ∷ messages) = message_for index indexes messages

abbrev pub is_message : Option Text → Text → Bool
is_message none message = false
is_message (some m) message = equal m message

unfoldable pub grant_all : List Grant → Proof → ℕ → ℕ
grant_all [] proof bits = bits
grant_all ((index, message, bit) ∷ grants) proof bits = grant_all grants proof (
    if is_message (message_for index proof.disclosed_indexes proof.disclosed_messages) message
    then bit_or bits bit
    else bits)

unfoldable pub derive_granted_claims : Proof → ℕ
derive_granted_claims proof = grant_all attest_grants proof 0
