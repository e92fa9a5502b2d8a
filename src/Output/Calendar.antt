-- ===== src/Output/Calendar.antt =====
-- The calendar of the timestamps: a date and a time of day determine the second.
use binance_aggregator.Prelude.{
  ℕ, ◌+◌, ◌-◌, ◌*◌, ◌/◌, ◌%◌, ◌≤◌, ◌<◌, ◌≡◌, ◌∙◌, sym, ap, arith, leb, ltb, if◌then◌else◌,
}
use binance_aggregator.Output.{Date, date_of_day, date_of_seconds}

-- The year of a day among the 146097 of 400 years that start in March.
abbrev year_of : ℕ → ℕ
year_of d = (d - d / 1_460 + d / 36_524 - d / 146_096) / 365

abbrev days_before_year : ℕ → ℕ
days_before_year y = 365 * y + y / 4 - y / 100

year_of_upper : (d : ℕ) → d < 146_097 → year_of d < 400
year_of_upper d h = omega arith

days_before_year-year_of : (d : ℕ) → d < 146_097 → days_before_year (year_of d) ≤ d
days_before_year-year_of d h = omega arith

days_in_year : (d : ℕ) → d < 146_097 → d ≤ 365 + days_before_year (year_of d)
days_in_year d h = omega arith

-- The month, counted from March, of a day of such a year, and the days before the month.
abbrev month_of : ℕ → ℕ
month_of d = (5 * d + 2) / 153

abbrev days_before_month : ℕ → ℕ
days_before_month m = (153 * m + 2) / 5

abbrev calendar_month : ℕ → ℕ
calendar_month m = if ltb m 10 then m + 3 else m - 9

-- The inverse of `date_of_day`.
day_of_date : Date → ℕ
day_of_date date =
    let year = if leb date.month 2 then date.year - 1 else date.year in
    let from_march = if leb date.month 2 then date.month + 9 else date.month - 3 in
    year / 400 * 146_097
    + (days_before_year (year % 400) + (days_before_month from_march + (date.day - 1)))

month_bound : (doy : ℕ) → doy ≤ 365 → month_of doy ≤ 11
month_bound doy h = omega arith

days_before_month-month_of : (doy : ℕ) → days_before_month (month_of doy) ≤ doy
days_before_month-month_of doy = omega arith

-- The date of day `doy` of year `y` of era `e`.
abbrev date_in : ℕ → ℕ → ℕ → Date
date_in e y doy =
    let month = calendar_month (month_of doy) in
    record {
      year = y + e * 400 + (if leb month 2 then 1 else 0);
      month = month;
      day = doy - days_before_month (month_of doy) + 1;
    }

from_march_back :
    (m : ℕ)
    → m ≤ 11
    → (if leb (calendar_month m) 2 then calendar_month m + 9 else calendar_month m - 3) ≡ m
from_march_back m h = ground arith

year_back :
    (e y m : ℕ)
    → m ≤ 11
    → (if leb (calendar_month m) 2
        then y + e * 400 + (if leb (calendar_month m) 2 then 1 else 0) - 1
        else y + e * 400 + (if leb (calendar_month m) 2 then 1 else 0))
      ≡ y + e * 400
year_back e y m h = ground arith

day_of_date-date_in :
    (e y doy : ℕ)
    → y < 400
    → doy ≤ 365
    → day_of_date (date_in e y doy) ≡ e * 146_097 + (days_before_year y + doy)
unfolding day_of_date
day_of_date-date_in e y doy h k =
    let m : ℕ = month_of doy in
    let era_back : (y + e * 400) / 400 ≡ e = omega arith in
    let year_of_era_back : (y + e * 400) % 400 ≡ y = omega arith in
    rw
      (
        from_march_back m (month_bound doy k),
        year_back e y m (month_bound doy k),
        era_back,
        year_of_era_back,
      )
      (omega (arith, days_before_month-month_of doy))

day_of_date-date_of_day : (z : ℕ) → day_of_date (date_of_day z) ≡ z
unfolding date_of_day
day_of_date-date_of_day z =
    let d : ℕ = z % 146_097 in
    let l : d < 146_097 = omega arith in
    day_of_date-date_in (z / 146_097) (year_of d) (d - days_before_year (year_of d))
      (year_of_upper d l) (omega (arith, days_in_year d l))
    ∙ omega (arith, days_before_year-year_of d l)

pub date_of_seconds_injective :
    (s t : ℕ) → date_of_seconds s ≡ date_of_seconds t → s / 86_400 ≡ t / 86_400
unfolding date_of_seconds
date_of_seconds_injective s t e =
    let days : s / 86_400 + 719_468 ≡ t / 86_400 + 719_468 =
      sym (day_of_date-date_of_day (s / 86_400 + 719_468))
      ∙ ap day_of_date e
      ∙ day_of_date-date_of_day (t / 86_400 + 719_468) in
    omega (arith, days)
