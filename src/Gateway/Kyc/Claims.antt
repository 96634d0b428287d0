-- ===== src/Gateway/Kyc/Claims.antt =====
-- packages/gateway/src/kyc/claims.ts: the six booleans, and the four of them that the chain carries.
pub mod Derived
pub mod Bitmap
use stellar_onramp.Base.{
  ℕ, bit_or, ◌+◌, ◌*◌, ◌/◌, ◌%◌, ◌^◌, Bool, true, false, ◌&&◌, ◌||◌, List, [], ◌∷◌, Option, none,
  some, ◌==◌, if◌then◌else◌, Result, ok, err, ◌>>=◌, ◌>>◌, guard, or_throw, rethrow_as, Text, codes,
  equal, includes, within,
}
use stellar_onramp.Identity.Schema.{issuer_jurisdiction_policy}
use stellar_onramp.Gateway.Kyc.Age.{AgeError, CalendarDate, derive_age_claims}

pub data ReviewAnswer : Type 0 where
  approved rejected pending : ReviewAnswer

-- The fields of a `KycStatus` that the derivation reads; an optional field may be absent.
pub record KycStatus : Type 0 where
  pub answer : ReviewAnswer
  pub date_of_birth : Option Text
  pub residence_country : Option Text
  pub sanctions_hit : Option Bool
  pub pep_hit : Option Bool
  pub liveness_passed : Option Bool

pub record ClaimSet : Type 0 where
  pub over18 : Bool
  pub over21 : Bool
  pub not_sanctioned : Bool
  pub not_pep : Bool
  pub jurisdiction_ok : Bool
  pub liveness_ok : Bool

pub data ClaimError : Type 0 where
  not_an_object not_approved : ClaimError
  age : AgeError → ClaimError

abbrev pub is_approved : ReviewAnswer → Bool
is_approved approved = true
is_approved rejected = false
is_approved pending = false

-- `field === value`
abbrev pub says : Option Bool → Bool → Bool
says none value = false
says (some true) value = value
says (some false) true = false
says (some false) false = true

-- /^[A-Z]{2}$/
abbrev pub is_country_code : Text → Bool
is_country_code (a ∷ b ∷ []) = within b'A' b'Z' a && within b'A' b'Z' b
is_country_code _ = false

unfoldable pub jurisdiction_allowed : Option Text → Bool
jurisdiction_allowed none = false
jurisdiction_allowed (some country) =
    if is_country_code country then includes issuer_jurisdiction_policy country else false

-- `none` is a status that is no object.
unfoldable pub derive_claim_set :
    Option KycStatus → Option CalendarDate → Result ClaimError ClaimSet
derive_claim_set status at = do
  given ← or_throw status not_an_object
  guard (is_approved given.answer) not_approved
  ages ← rethrow_as (derive_age_claims given.date_of_birth at) age
  ok (record {
    over18 = ages.over18;
    over21 = ages.over21;
    not_sanctioned = says given.sanctions_hit false;
    not_pep = says given.pep_hit false;
    jurisdiction_ok = jurisdiction_allowed given.residence_country;
    liveness_ok = says given.liveness_passed true;
  })

pub data BooleanClaimName : Type 0 where
  over18 over21 not_sanctioned not_pep jurisdiction_ok liveness_ok : BooleanClaimName

abbrev pub boolean_claim_names : List BooleanClaimName
boolean_claim_names =
    over18 ∷ over21 ∷ not_sanctioned ∷ not_pep ∷ jurisdiction_ok ∷ liveness_ok ∷ []

-- The position of the claim's bit in the bitmap of the contract.
abbrev pub claim_bit_by_name : BooleanClaimName → Option ℕ
claim_bit_by_name over18 = some 0
claim_bit_by_name over21 = some 1
claim_bit_by_name not_sanctioned = some 2
claim_bit_by_name jurisdiction_ok = some 3
claim_bit_by_name not_pep = none
claim_bit_by_name liveness_ok = none

-- `claims[name]`
abbrev pub claim_of : ClaimSet → BooleanClaimName → Bool
claim_of claims over18 = claims.over18
claim_of claims over21 = claims.over21
claim_of claims not_sanctioned = claims.not_sanctioned
claim_of claims not_pep = claims.not_pep
claim_of claims jurisdiction_ok = claims.jurisdiction_ok
claim_of claims liveness_ok = claims.liveness_ok

-- `bitmap | (1 << bit)`
abbrev pub or_bit : ℕ → ℕ → ℕ
or_bit bitmap bit = bit_or bitmap (2 ^ bit)

abbrev pub claim_step : ClaimSet → BooleanClaimName → ℕ → ℕ
claim_step claims name bitmap = elim (claim_bit_by_name name) [
  | none ↦ bitmap
  | some bit ↦ if claim_of claims name then or_bit bitmap bit else bitmap
]

unfoldable pub fold_claims : ClaimSet → List BooleanClaimName → ℕ → ℕ
fold_claims claims [] bitmap = bitmap
fold_claims claims (name ∷ names) bitmap = fold_claims claims names (claim_step claims name bitmap)

unfoldable pub claim_bitmap : ClaimSet → ℕ
claim_bitmap claims = fold_claims claims boolean_claim_names 0 % 2 ^ 32
