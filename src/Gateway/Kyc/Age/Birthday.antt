-- ===== src/Gateway/Kyc/Age/Birthday.antt =====
-- The age that packages/gateway/src/kyc/age.ts derives, against the birthdays that have been reached.
use stellar_onramp.Base.{
  ℕ, ◌+◌, ◌≤◌, Bool, true, false, Option, some, ltb, leb, ◌==◌, ◌↔◌, ◌≡◌, arith, ◌&&◌, ◌||◌, ok,
  or_throw-eq-ok, >>=-eq-ok, Text,
}
use stellar_onramp.Gateway.Kyc.Age.{
  CalendarDate, age_of, age_at_utc, derive_age_claims, AgeClaims, parse_calendar_date,
}

-- In the order of the calendar.
abbrev pub not_after : CalendarDate → CalendarDate → Bool
not_after a b =
    ltb a.year b.year
    || (a.year == b.year && (ltb a.month b.month || (a.month == b.month && leb a.day b.day)))

-- The birthday on which somebody born on this day completes so many years; one that falls on
-- 29 February is reached on 1 March where the year has none.
abbrev pub birthday : ℕ → CalendarDate → CalendarDate
birthday years dob = record { year = dob.year + years; month = dob.month; day = dob.day }

-- The age is n exactly where the n-th birthday has been reached, the next has not, and n is at
-- most 150.
pub age_of-birthdays :
    (dob at : CalendarDate) (n : ℕ)
    → (age_of dob at ≡ ok n) ↔ (
        (not_after (birthday n dob) at ≡ true)
        × (not_after (birthday (n + 1) dob) at ≡ false)
        × (n ≤ 150))
unfolding age_of
age_of-birthdays dob at n = ground arith

-- Where the age claims are derived, of a date of birth that parses and a valid instant, "over 18" is
-- that the 18th birthday has been reached, and "over 21" that the 21st has.
pub derive_age_claims-birthdays :
    (value : Option Text) (at : Option CalendarDate) {claims : AgeClaims}
    → derive_age_claims value at ≡ ok claims
    → (dob : CalendarDate) × (now : CalendarDate) × (parse_calendar_date value ≡ ok dob)
      × (at ≡ some now)
      × (claims.over18 ≡ not_after (birthday 18 dob) now)
      × (claims.over21 ≡ not_after (birthday 21 dob) now)
unfolding derive_age_claims age_at_utc age_of
derive_age_claims-birthdays value at h =
    let (n, aged, h₁) = >>=-eq-ok (age_at_utc value at) _ h in
    let (now, valid, h₂) = or_throw-eq-ok at _ _ aged in
    let (dob, parsed, h₃) = >>=-eq-ok (parse_calendar_date value) _ h₂ in
    (dob, now, parsed, valid, ground (arith, h₁, h₃), ground (arith, h₁, h₃))
