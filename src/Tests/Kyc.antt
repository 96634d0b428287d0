-- ===== src/Tests/Kyc.antt =====
-- Runs of packages/gateway/src/kyc.
use stellar_onramp.Base.{
  includes, ℕ, ◌≤◌, ◌≡◌, ◌↔◌, refl, true, false, none, some, replicate, ok, err, codes, nat,
  all_hex, equal,
}
use stellar_onramp.Gateway.Kyc.Age.{
  CalendarDate, no_such_day, age_of, age_at_utc, derive_age_claims, parse_calendar_date, iso_date,
  round_trips, date_utc, roll,
}
use stellar_onramp.Gateway.Kyc.Age.Calendar.{IsDate, parse_calendar_date-IsDate}
use stellar_onramp.Gateway.Kyc.Age.Birthday.{birthday, not_after, age_of-birthdays}
use stellar_onramp.Gateway.Kyc.Claims.{
  KycStatus, ClaimSet, approved, derive_claim_set, jurisdiction_allowed, claim_bitmap,
}
use stellar_onramp.Gateway.Kyc.Claims.Derived.{IsGrounded, derive_claim_set-IsGrounded}
use stellar_onramp.Gateway.Kyc.Claims.Bitmap.{claim_bitmap-bits}
use stellar_onramp.Gateway.Kyc.RevocationIndex.{
  Allocator, create, allocate, allocations, assert_usable_revocation_index,
}
use stellar_onramp.Gateway.Kyc.RevocationIndex.Unique.{allocations_unique}
use stellar_onramp.Gateway.Kyc.Record.{
  IssuanceArgs, IssuanceRecord, build_issuance_record, erase_subject_linkage,
}
use stellar_onramp.Gateway.Kyc.Record.WellFormed.{
  IsKept, build_issuance_record-IsKept, erase_subject_linkage-unlinked,
}

-- Born on 29 February.
abbrev leapling : CalendarDate
leapling = record { year = 2004; month = 2; day = 29 }

abbrev eighteenth : CalendarDate
eighteenth = record { year = 2022; month = 3; day = 1 }

parse_calendar_date-IsDate_example :
    (parse_calendar_date (some (codes "2004-02-29")) ≡ ok leapling)
    ↔ ((iso_date (codes "2004-02-29") ≡ some leapling) × IsDate leapling × (100 ≤ 2004))
parse_calendar_date-IsDate_example = parse_calendar_date-IsDate (codes "2004-02-29") leapling

leapling-parses : parse_calendar_date (some (codes "2004-02-29")) ≡ ok leapling
unfolding parse_calendar_date iso_date round_trips date_utc roll
leapling-parses = refl

no_thirtieth : parse_calendar_date (some (codes "1990-02-30")) ≡ err no_such_day
unfolding parse_calendar_date iso_date round_trips date_utc roll
no_thirtieth = refl

age_of-birthdays_example : (age_of leapling eighteenth ≡ ok 18) ↔ (
    (not_after (birthday 18 leapling) eighteenth ≡ true)
    × (not_after (birthday 19 leapling) eighteenth ≡ false)
    × (18 ≤ 150))
age_of-birthdays_example = age_of-birthdays leapling eighteenth 18

leapling-adult :
    derive_age_claims (some (codes "2004-02-29")) (some eighteenth)
    ≡ ok (record { over18 = true; over21 = false })
unfolding derive_age_claims age_at_utc age_of parse_calendar_date iso_date round_trips date_utc roll
leapling-adult = refl

abbrev status : KycStatus
status = record {
  answer = approved;
  date_of_birth = some (codes "2004-02-29");
  residence_country = some (codes "SE");
  sanctions_hit = some false;
  pep_hit = none;
  liveness_passed = some true;
}

abbrev claims : ClaimSet
claims = record {
  over18 = true;
  over21 = false;
  not_sanctioned = true;
  not_pep = false;
  jurisdiction_ok = true;
  liveness_ok = true;
}

derive_claim_set-IsGrounded_example : IsGrounded status (some eighteenth) claims
unfolding derive_claim_set jurisdiction_allowed includes equal derive_age_claims age_at_utc age_of
    parse_calendar_date iso_date round_trips date_utc roll
derive_claim_set-IsGrounded_example = derive_claim_set-IsGrounded status (some eighteenth) refl

claim_bitmap-bits_example : claim_bitmap claims ≡ 13
claim_bitmap-bits_example = claim_bitmap-bits claims

abbrev small : Allocator
small = record { next = 5; max = 6 }

allocations_unique_example : (◌≡◌ {A = ℕ} 1 1) × (assert_usable_revocation_index (nat 6) ≡ ok 6)
unfolding create allocations allocate
allocations_unique_example = allocations_unique (some (nat 5)) (some (nat 6)) 3 1 1 6 refl refl refl

abbrev args : IssuanceArgs
args = record {
  provider = codes "p";
  provider_ref_id = codes "r";
  subject_id = codes "s";
  wallet_c_addr = codes "w";
  claim_bitmap = nat 13;
  schema_version = codes "1";
  issued_at = nat 10;
  expires_at = nat 20;
  revocation_index = nat 5;
  issuer_id = replicate 64 b'a';
}

abbrev kept : IssuanceRecord
kept = record {
  provider = codes "p";
  provider_ref_id = codes "r";
  subject_id = codes "s";
  wallet_c_addr = codes "w";
  claim_bitmap = 13;
  schema_version = codes "1";
  issued_at = 10;
  expires_at = 20;
  revocation_index = 5;
  issuer_id = replicate 64 b'a';
}

build_issuance_record-IsKept_example : IsKept args kept
unfolding build_issuance_record all_hex
build_issuance_record-IsKept_example = build_issuance_record-IsKept args refl

erase_subject_linkage-unlinked_example :
    erase_subject_linkage
      (record kept { subject_id = codes "t"; wallet_c_addr = codes "v" })
      (nat 30)
    ≡ erase_subject_linkage kept (nat 30)
erase_subject_linkage-unlinked_example =
    erase_subject_linkage-unlinked kept (codes "t") (codes "v") (nat 30)
