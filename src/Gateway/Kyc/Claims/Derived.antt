-- ===== src/Gateway/Kyc/Claims/Derived.antt =====
-- What each claim that packages/gateway/src/kyc/claims.ts derives rests on.
use mathlib.Core.Path.{subst}
use stellar_onramp.Base.{
  includes-IsOneOf, IsOneOf, Bool, true, false, Option, none, some, ◌↔◌, ◌≡◌, refl, arith, ok,
  >>=-eq-ok, guard-eq-ok, rethrow_as, rethrow_as-eq-ok, ok-injective, Text,
}
use stellar_onramp.Identity.Schema.{issuer_jurisdiction_policy}
use stellar_onramp.Gateway.Kyc.Age.{CalendarDate, AgeClaims, derive_age_claims}
use stellar_onramp.Gateway.Kyc.Claims.{
  KycStatus, ClaimSet, age, approved, is_approved, says, jurisdiction_allowed, derive_claim_set,
  ReviewAnswer,
}

jurisdiction_allowed-IsOneOf :
    (country : Option Text)
    → jurisdiction_allowed country ≡ true
    → (code : Text) × (country ≡ some code) × IsOneOf issuer_jurisdiction_policy code
unfolding jurisdiction_allowed
jurisdiction_allowed-IsOneOf none h = absurd (cc)
jurisdiction_allowed-IsOneOf (some code) h =
    (code, refl, includes-IsOneOf issuer_jurisdiction_policy code (ground arith))

says_iff : (field : Option Bool) (value : Bool) → (says field value ≡ true) ↔ (field ≡ some value)
says_iff field value = ground arith

-- What the provider said for each claim that holds.
pub record IsGrounded (status : KycStatus) (at : Option CalendarDate) (claims : ClaimSet)
    : Type 0 where
  pub verdict : status.answer ≡ approved
  pub ages : AgeClaims
  pub aged : derive_age_claims status.date_of_birth at ≡ ok ages
  pub over18_h : claims.over18 ≡ ages.over18
  pub over21_h : claims.over21 ≡ ages.over21
  pub clean : (claims.not_sanctioned ≡ true) ↔ (status.sanctions_hit ≡ some false)
  pub no_pep : (claims.not_pep ≡ true) ↔ (status.pep_hit ≡ some false)
  pub live : (claims.liveness_ok ≡ true) ↔ (status.liveness_passed ≡ some true)
  pub resident :
      claims.jurisdiction_ok ≡ true
      → (code : Text) × (status.residence_country ≡ some code)
        × IsOneOf issuer_jurisdiction_policy code

is_approved-eq : (answer : ReviewAnswer) → is_approved answer ≡ true → answer ≡ approved
is_approved-eq answer h = ground arith

-- Claims are derived only of an approved applicant whose date of birth gives an age. "Not sanctioned"
-- and "not politically exposed" hold exactly where the provider said that there is no hit, liveness
-- exactly where it said that it passed, and the jurisdiction only of a country of the policy.
pub derive_claim_set-IsGrounded :
    (status : KycStatus) (at : Option CalendarDate) {claims : ClaimSet}
    → derive_claim_set (some status) at ≡ ok claims
    → IsGrounded status at claims
unfolding derive_claim_set
derive_claim_set-IsGrounded status at h =
    let (approval, h₁) = guard-eq-ok (is_approved status.answer) _ h in
    let (ages, aged, h₂) =
      >>=-eq-ok (rethrow_as (derive_age_claims status.date_of_birth at) age) _ h₁ in
    subst (IsGrounded status at) (ok-injective h₂) (record {
      verdict = is_approved-eq status.answer approval;
      ages = ages;
      aged = rethrow_as-eq-ok (derive_age_claims status.date_of_birth at) age aged;
      over18_h = refl;
      over21_h = refl;
      clean = says_iff status.sanctions_hit false;
      no_pep = says_iff status.pep_hit false;
      live = says_iff status.liveness_passed true;
      resident = jurisdiction_allowed-IsOneOf status.residence_country;
    })
