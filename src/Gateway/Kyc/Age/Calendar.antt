-- ===== src/Gateway/Kyc/Age/Calendar.antt =====
-- Which dates `parseCalendarDate` (packages/gateway/src/kyc/age.ts) accepts.
use mathlib.Core.Path.{subst}
use stellar_onramp.Base.{
  [], ◌∷◌, if-cases, leb→le, ℕ, zero, suc, ◌+◌, ◌*◌, ◌-◌, ◌≤◌, true, some, leb, ◌==◌, ◌↔◌, inl, inr,
  ◌≡◌, arith, Bool-cases, if◌then◌else◌, ok, or_throw-eq-ok, guard-eq-ok, ok-injective, Text,
}
use stellar_onramp.Gateway.Kyc.Age.{
  CalendarDate, days_in_month, next_month, roll, start, place, date_utc, same_date, round_trips,
  iso_date, parse_calendar_date,
}

-- A day of the Gregorian calendar.
pub record IsDate (date : CalendarDate) : Type 0 where
  pub month_from : 1 ≤ date.month
  pub month_to : date.month ≤ 12
  pub day_from : 1 ≤ date.day
  pub day_to : date.day ≤ days_in_month date.year date.month

month_bounds : (year month : ℕ) → (28 ≤ days_in_month year month) × (days_in_month year month ≤ 31)
month_bounds year month = ground arith

-- Four months are enough for two digits of days.
roll-IsDate :
    (fuel year month day : ℕ)
    → 1 ≤ month
    → month ≤ 12
    → 1 ≤ day
    → day ≤ 28 * fuel
    → IsDate (roll fuel year month day)
unfolding roll
roll-IsDate zero year month day h₁ h₂ h₃ h₄ = absurd (ground arith)
roll-IsDate (suc fuel) year month day h₁ h₂ h₃ h₄ =
    let (at_least, _) = month_bounds year month in
    let (later_year, later) = next_month year month in
    if-cases IsDate (leb day (days_in_month year month))
      (record { year = year; month = month; day = day })
      (roll fuel later_year later (day - days_in_month year month))
      (λ t. record { month_from = h₁; month_to = h₂; day_from = h₃; day_to = ground (arith, t) })
      (λ f.
        roll-IsDate fuel later_year later (day - days_in_month year month) (ground arith)
          (ground arith) (ground (arith, f)) (ground (arith, f, at_least)))

place-IsDate :
    (year month day : ℕ) → 1 ≤ month → month ≤ 12 → day ≤ 99 → IsDate (place year month day)
place-IsDate year month zero h₁ h₂ h₃ =
    let (at_least, _) = month_bounds year (month - 1) in
    if-cases IsDate (month == 1) (record { year = year - 1; month = 12; day = 31 })
      (record { year = year; month = month - 1; day = days_in_month year (month - 1) })
      (λ t. record {
        month_from = ground arith;
        month_to = ground arith;
        day_from = ground arith;
        day_to = ground arith;
      })
      (λ f. record {
        month_from = ground (arith, f);
        month_to = ground arith;
        day_from = ground (arith, at_least);
        day_to = ground arith;
      })
place-IsDate year month (suc d) h₁ h₂ h₃ =
    roll-IsDate 4 year month (suc d) h₁ h₂ (ground arith) (ground arith)

start-bounds : (year month : ℕ) → (1 ≤ (start year month).1) × ((start year month).1 ≤ 12)
start-bounds year zero = ground arith
start-bounds year (suc m) = grind arith

date_utc-IsDate : (year month day : ℕ) → day ≤ 99 → IsDate (date_utc year month day)
unfolding date_utc
date_utc-IsDate year month day h =
    let full = if leb year 99 then 1900 + year else year in
    let (from, to) = start-bounds full month in
    place-IsDate (start full month).0 (start full month).1 day from to h

same_date-eq : (a b : CalendarDate) → same_date a b ≡ true → a ≡ b
same_date-eq a b h = ground arith

roll-year : (fuel year month day : ℕ) → year ≤ (roll fuel year month day).year
unfolding roll
roll-year zero year month day = ground arith
roll-year (suc fuel) year month day =
    let (later_year, later) = next_month year month in
    if-cases (λ (date : CalendarDate). year ≤ date.year) (leb day (days_in_month year month))
      (record { year = year; month = month; day = day })
      (roll fuel later_year later (day - days_in_month year month)) (λ t. ground arith)
      (λ f.
        let later_h = roll-year fuel later_year later (day - days_in_month year month) in
        grind (arith, later_h))

place-year : (year month day : ℕ) → year - 1 ≤ (place year month day).year
place-year year month zero = ground arith
place-year year month (suc d) = let h = roll-year 4 year month (suc d) in grind (arith, h)

start-year : (year month : ℕ) → year - 1 ≤ (start year month).0
start-year year zero = ground arith
start-year year (suc m) = ground arith

-- The years 0 to 99 are moved to the 20th century.
date_utc-year : (year month day : ℕ) → year ≤ 99 → 1898 ≤ (date_utc year month day).year
unfolding date_utc
date_utc-year year month day few =
    let full = if leb year 99 then 1900 + year else year in
    let full_from : 1900 ≤ full = ground (arith, few) in
    let start_from = start-year full month in
    let place_from = place-year (start full month).0 (start full month).1 day in
    omega (arith, full_from, start_from, place_from)

round_trips-IsDate : (date : CalendarDate) → date.day ≤ 99 → round_trips date ≡ true → IsDate date
unfolding round_trips
round_trips-IsDate date h e =
    subst IsDate (same_date-eq (date_utc date.year date.month date.day) date e)
      (date_utc-IsDate date.year date.month date.day h)

start-plain : (year month : ℕ) → 1 ≤ month → month ≤ 12 → start year month ≡ (year, month)
start-plain year zero h k = absurd (ground arith)
start-plain year (suc m) h k = grind arith

place-plain :
    (year month day : ℕ)
    → 1 ≤ day
    → day ≤ days_in_month year month
    → place year month day ≡ record { year = year; month = month; day = day }
unfolding roll
place-plain year month zero h k = absurd (ground arith)
place-plain year month (suc d) h k = ground arith

IsDate-round_trips : (date : CalendarDate) → 100 ≤ date.year → IsDate date → round_trips date ≡ true
unfolding round_trips date_utc
IsDate-round_trips date h d =
    let plain = start-plain date.year date.month d.month_from d.month_to in
    let there = place-plain date.year date.month date.day d.day_from d.day_to in
    ground (arith, plain, there)

round_trips-year : (date : CalendarDate) → round_trips date ≡ true → 100 ≤ date.year
unfolding round_trips
round_trips-year date e = elim (Bool-cases (leb date.year 99)) [
  | inl t ↦
      let moved = date_utc-year date.year date.month date.day (leb→le _ _ t) in
      absurd (ground (arith, t, moved, e))
  | inr f ↦ ground (arith, f)
]

iso_date-day : (text : Text) {date : CalendarDate} → iso_date text ≡ some date → date.day ≤ 99
unfolding iso_date
iso_date-day (a ∷ b ∷ c ∷ d ∷ s ∷ e ∷ f ∷ t ∷ g ∷ u ∷ []) h = ground arith
iso_date-day _ h = absurd (cc)

-- A text is accepted exactly where it has the form YYYY-MM-DD, its day is one of the Gregorian
-- calendar, and its year is not one of 0 to 99.
pub parse_calendar_date-IsDate :
    (text : Text) (date : CalendarDate)
    → (parse_calendar_date (some text) ≡ ok date)
      ↔ ((iso_date text ≡ some date) × IsDate date × (100 ≤ date.year))
unfolding parse_calendar_date
parse_calendar_date-IsDate text date = (
  λ h.
      let (found, form, h₁) = or_throw-eq-ok (iso_date text) _ _ h in
      let (real, h₂) = guard-eq-ok (round_trips found) _ h₁ in
      let same : found ≡ date = ok-injective h₂ in
      subst (λ date. (iso_date text ≡ some date) × IsDate date × (100 ≤ date.year)) same
        (form, round_trips-IsDate found (iso_date-day text form) real, round_trips-year found real),
  λ (form, day, late). let real = IsDate-round_trips date late day in ground (arith, form, real),
)
