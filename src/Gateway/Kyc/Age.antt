-- ===== src/Gateway/Kyc/Age.antt =====
-- packages/gateway/src/kyc/age.ts. An evaluation instant is its UTC calendar date (its year is not
-- before 0), `none` for an invalid `Date`.
pub mod Calendar
pub mod Birthday
use stellar_onramp.Base.{
  ℕ, zero, suc, ◌+◌, ◌*◌, ◌-◌, ◌/◌, ◌%◌, Bool, true, false, not, ◌&&◌, ◌||◌, [], ◌∷◌, Option, none,
  some, ltb, leb, ◌==◌, if◌then◌else◌, Result, ok, err, ◌>>=◌, ◌>>◌, guard, or_throw, Text,
  is_digit,
}
use stellar_onramp.Base.Integers.{ℤ, pos, negsuc, sub_ℕ}

pub data AgeError : Type 0 where
  not_a_string not_iso_form no_such_day invalid_instant in_future malformed_age : AgeError

pub record CalendarDate : Type 0 where
  pub year : ℕ
  pub month : ℕ
  pub day : ℕ

-- The proleptic Gregorian calendar that `Date` keeps; months are counted from 1.
abbrev pub is_leap : ℕ → Bool
is_leap year = (year % 4 == 0 && not (year % 100 == 0)) || year % 400 == 0

abbrev pub days_in_month : ℕ → ℕ → ℕ
days_in_month year month =
    if month == 2
    then if is_leap year then 29 else 28
    else if month == 4 || month == 6 || month == 9 || month == 11
    then 30
    else 31

abbrev pub next_month : ℕ → ℕ → ℕ × ℕ
next_month year month = if month == 12 then (year + 1, 1) else (year, month + 1)

-- A day past the end of its month is moved on by whole months.
unfoldable pub roll : ℕ → ℕ → ℕ → ℕ → CalendarDate
roll zero year month day = record { year = year; month = month; day = day }
roll (suc fuel) year month day =
    let (next_year, next) = next_month year month in
    let later = roll fuel next_year next (day - days_in_month year month) in
    if leb day (days_in_month year month)
    then record { year = year; month = month; day = day }
    else later

-- The first of a month before January or after December.
abbrev pub start : ℕ → ℕ → ℕ × ℕ
start year zero = (year - 1, 12)
start year (suc m) = (year + m / 12, m % 12 + 1)

-- The day before the first of a month is the last of the month before it.
abbrev pub place : ℕ → ℕ → ℕ → CalendarDate
place year month zero =
    if month == 1
    then record { year = year - 1; month = 12; day = 31 }
    else record { year = year; month = month - 1; day = days_in_month year (month - 1) }
place year month (suc d) = roll 4 year month (suc d)

-- The date that `new Date(Date.UTC(year, month - 1, day))` shows, for two digits of month and day:
-- `Date.UTC` takes the years 0 to 99 for 1900 to 1999.
unfoldable pub date_utc : ℕ → ℕ → ℕ → CalendarDate
date_utc year month day =
    let full = if leb year 99 then 1900 + year else year in
    let (y, m) = start full month in place y m day

abbrev pub same_date : CalendarDate → CalendarDate → Bool
same_date a b = a.year == b.year && a.month == b.month && a.day == b.day

abbrev pub digit : ℕ → ℕ
digit c = c - b'0'

-- /^(\d{4})-(\d{2})-(\d{2})$/ and `Number` of its groups.
unfoldable pub iso_date : Text → Option CalendarDate
iso_date (a ∷ b ∷ c ∷ d ∷ s ∷ e ∷ f ∷ t ∷ g ∷ h ∷ []) =
    if is_digit a
      && is_digit b
      && is_digit c
      && is_digit d
      && s == b'-'
      && is_digit e
      && is_digit f
      && t == b'-'
      && is_digit g
      && is_digit h
    then some (record {
      year = digit a * 1000 + digit b * 100 + digit c * 10 + digit d;
      month = digit e * 10 + digit f;
      day = digit g * 10 + digit h;
    })
    else none
iso_date _ = none

unfoldable pub round_trips : CalendarDate → Bool
round_trips date = same_date (date_utc date.year date.month date.day) date

-- `none` is a value that is no string.
unfoldable pub parse_calendar_date : Option Text → Result AgeError CalendarDate
parse_calendar_date none = err not_a_string
parse_calendar_date (some value) = do
  date ← or_throw (iso_date value) not_iso_form
  guard (round_trips date) no_such_day
  ok date

abbrev pub before_birthday : CalendarDate → CalendarDate → Bool
before_birthday dob at = ltb at.month dob.month || (at.month == dob.month && ltb at.day dob.day)

-- `age -= 1`
abbrev pub pred : ℤ → ℤ
pred (pos zero) = negsuc 0
pred (pos (suc n)) = pos n
pred (negsuc n) = negsuc (suc n)

-- The two refusals of an age.
abbrev pub plausible : ℤ → Result AgeError ℕ
plausible (negsuc n) = err in_future
plausible (pos n) = do guard (leb n 150) malformed_age; ok n

unfoldable pub age_of : CalendarDate → CalendarDate → Result AgeError ℕ
age_of dob at =
    let years = sub_ℕ at.year dob.year in
    plausible (if before_birthday dob at then pred years else years)

unfoldable pub age_at_utc : Option Text → Option CalendarDate → Result AgeError ℕ
age_at_utc dob_iso at = do
  instant ← or_throw at invalid_instant
  dob ← parse_calendar_date dob_iso
  age_of dob instant

pub record AgeClaims : Type 0 where
  pub over18 : Bool
  pub over21 : Bool

unfoldable pub derive_age_claims : Option Text → Option CalendarDate → Result AgeError AgeClaims
derive_age_claims dob_iso at = do
  age ← age_at_utc dob_iso at
  ok (record { over18 = leb 18 age; over21 = leb 21 age })
