-- ===== src/Domain/Calendar/Laws.antt =====
-- src/domain.cpp: the arithmetic of dates and weekdays.
use shigoku.Common.{
  if◌then◌else◌, leb, ◌==◌, ℕ, ◌+◌, ◌-◌, ◌*◌, ◌/◌, ◌%◌, ◌≤◌, ◌<◌, ◌≡◌, refl, arith, ◌∙◌, Bool, ◌||◌,
  true, false, Bool-cases, inl, inr,
}
use shigoku.Common.Int.{ℤ, pos, negsuc, ◌+ℤ◌, ◌-ℤ◌, pos_part}
use shigoku.Domain.Calendar.{
  year_of_era, day_of_year, shifted_month, day_of_month, month_from, era_of, day_of_era,
  civil_from_days, weekday_index, Ymd,
}

day_of_era_pos : (n : ℕ) → day_of_era (pos n) ≡ pos (n % 146097)
unfolding day_of_era era_of ◌-ℤ◌
day_of_era_pos n = ground arith

day_of_era_neg : (n : ℕ) → day_of_era (negsuc n) ≡ pos ((n + 146097) / 146097 * 146097 - (n + 1))
unfolding day_of_era era_of ◌-ℤ◌
day_of_era_neg n = ground arith

day_of_era_lem : (z : ℤ) → (doe : ℕ) × (day_of_era z ≡ pos doe) × (doe < 146097)
day_of_era_lem (pos n) = (n % 146097, day_of_era_pos n, omega arith)
day_of_era_lem (negsuc n) =
    ((n + 146097) / 146097 * 146097 - (n + 1), day_of_era_neg n, omega arith)

day_of_year-le : (doe : ℕ) → doe < 146097 → day_of_year doe (year_of_era doe) ≤ 365
unfolding day_of_year year_of_era
day_of_year-le doe h = omega arith

abbrev pub IsMonthDay : ℕ → ℕ → Type 0
IsMonthDay month day = (1 ≤ month) × (month ≤ 12) × (1 ≤ day) × (day ≤ 31)

month-bounds :
    (doy : ℕ)
    → doy ≤ 365
    → IsMonthDay (month_from (shifted_month doy)) (day_of_month doy (shifted_month doy))
unfolding shifted_month month_from day_of_month
month-bounds doy h = ground arith

-- Every day number, before 1970 too, is a date with a month from 1 to 12 and a day from 1 to 31.
pub civil_from_days-bounds :
    (days : ℤ) → IsMonthDay (civil_from_days days).month (civil_from_days days).day
unfolding civil_from_days
civil_from_days-bounds days =
    let e = day_of_era_lem (days +ℤ pos 719468) in
    rw e.1 (month-bounds (day_of_year e.0 (year_of_era e.0)) (day_of_year-le e.0 e.2))

weekday_index_pos : (n : ℕ) → weekday_index (pos n) ≡ (n / 86400 + 3) % 7
unfolding weekday_index ◌+ℤ◌
weekday_index_pos n = ground arith

-- From 1970 on, an instant has one of seven weekdays, and the same time of the next day has the next.
pub weekday_index-next :
    (n : ℕ)
    → (weekday_index (pos n) < 7)
      × (weekday_index (pos (n + 86400)) ≡ (weekday_index (pos n) + 1) % 7)
weekday_index-next n = ground (arith, weekday_index_pos n, weekday_index_pos (n + 86400))

-- The first day is a Thursday, the first of January 1970.
epoch_day-date :
    (civil_from_days (pos 0) ≡ record { year = pos 1970; month = 1; day = 1 })
    × (weekday_index (pos 0) ≡ 3)
unfolding civil_from_days day_of_era era_of year_of_era day_of_year shifted_month month_from
    day_of_month weekday_index ◌+ℤ◌ ◌-ℤ◌
epoch_day-date = (refl, refl)

-- The days of a civil year before a month, in years that start in March: month 3 is 0, 2 is 11.
pub days_before : ℕ → ℕ
days_before month =
    if month == 3
    then 0
    else if month == 4
    then 31
    else if month == 5
    then 61
    else if month == 6
    then 92
    else if month == 7
    then 122
    else if month == 8
    then 153
    else if month == 9
    then 184
    else if month == 10
    then 214
    else if month == 11
    then 245
    else if month == 12
    then 275
    else if month == 1
    then 306
    else 337

-- The days from the first of March of the year 0 to a date, with a leap day in every fourth year but
-- in three of four centuries.
pub day_count : Ymd → ℕ
day_count d =
    let y = if leb d.month 2 then pos_part d.year - 1 else pos_part d.year in
    365 * y + y / 4 - y / 100 + y / 400 + days_before d.month + d.day - 1

year_of_era-fits :
    (doe : ℕ)
    → doe < 146097
    → (year_of_era doe ≤ 399)
      × (365 * year_of_era doe + year_of_era doe / 4 - year_of_era doe / 100 ≤ doe)
unfolding year_of_era
year_of_era-fits doe h = omega arith

days_before-month :
    (doy : ℕ)
    → doy ≤ 365
    → days_before (month_from (shifted_month doy)) + day_of_month doy (shifted_month doy) ≡ doy + 1
unfolding days_before shifted_month month_from day_of_month
days_before-month doy h = ground arith

-- The date of a day of an era, with the year as a number.
abbrev era_date : ℕ → ℕ → Ymd
era_date era doe =
    let yoe = year_of_era doe in
    let mp = shifted_month (day_of_year doe yoe) in
    record {
      year = pos (yoe + era * 400 + (if leb (month_from mp) 2 then 1 else 0));
      month = month_from mp;
      day = day_of_month (day_of_year doe yoe) mp;
    }

civil_from_days-era_date :
    (n : ℕ) → civil_from_days (pos n) ≡ era_date ((n + 719468) / 146097) ((n + 719468) % 146097)
unfolding civil_from_days day_of_era era_of ◌+ℤ◌ ◌-ℤ◌
civil_from_days-era_date n = ground arith

count_year :
    (era yoe : ℕ)
    → yoe ≤ 399
    → 365 * (yoe + era * 400)
        + (yoe + era * 400) / 4
        - (yoe + era * 400) / 100
        + (yoe + era * 400) / 400
      ≡ 146097 * era + (365 * yoe + yoe / 4 - yoe / 100)
count_year era yoe h = omega arith

day_count-era_date :
    (era doe : ℕ) → doe < 146097 → day_count (era_date era doe) ≡ 146097 * era + doe
unfolding day_count day_of_year
day_count-era_date era doe h =
    let fits = year_of_era-fits doe h in
    let year = count_year era (year_of_era doe) fits.0 in
    let month = days_before-month (day_of_year doe (year_of_era doe)) (day_of_year-le doe h) in
    ground (arith, fits, year, month)

-- The Gregorian leap years, and the length of a month.
pub is_leap : ℕ → Bool
is_leap y = if y % 4 == 0 then (if y % 100 == 0 then y % 400 == 0 else true) else false

pub month_length : ℕ → ℕ → ℕ
month_length y month =
    if month == 2
    then (if is_leap y then 29 else 28)
    else if month == 4 || (month == 6 || (month == 9 || month == 11))
    then 30
    else 31

last_day-leap :
    (era doe : ℕ)
    → doe < 146097
    → day_of_year doe (year_of_era doe) ≡ 365
    → is_leap (year_of_era doe + era * 400 + 1) ≡ true
unfolding is_leap day_of_year year_of_era
last_day-leap era doe h e = ground arith

month-fits :
    (doy y : ℕ)
    → doy ≤ 365
    → (doy ≡ 365 → is_leap y ≡ true)
    → day_of_month doy (shifted_month doy) ≤ month_length y (month_from (shifted_month doy))
unfolding month_length day_of_month shifted_month month_from
month-fits doy y h leap = ground arith

-- Only February's length depends on the year.
month_length_any :
    (y z month : ℕ) → leb month 2 ≡ false → month_length y month ≡ month_length z month
unfolding month_length
month_length_any y z month h = ground arith

era_date-fits :
    (era doe : ℕ)
    → doe < 146097
    → (era_date era doe).day
      ≤ month_length (pos_part (era_date era doe).year) (era_date era doe).month
era_date-fits era doe h =
    let fits =
      month-fits (day_of_year doe (year_of_era doe)) (year_of_era doe + era * 400 + 1)
        (day_of_year-le doe h) (last_day-leap era doe h) in
    let month = month_from (shifted_month (day_of_year doe (year_of_era doe))) in
    let y = year_of_era doe + era * 400 in
    elim (Bool-cases (leb month 2)) [
      | inl h ↦ rw h fits
      | inr h ↦ rw h (omega (arith, fits, month_length_any (y + 1) (y + 0) month h))
    ]

-- From 1970 on, the date of a day number is a date of the Gregorian calendar, with a month from 1 to
-- 12 and a day within the length of that month in that year, and it stands that many days after the
-- first of January 1970, counted with the leap years.
pub civil_from_days-counts :
    (n : ℕ)
    → (day_count (civil_from_days (pos n)) ≡ n + 719468)
      × IsMonthDay (civil_from_days (pos n)).month (civil_from_days (pos n)).day
      × ((civil_from_days (pos n)).day
          ≤ month_length (pos_part (civil_from_days (pos n)).year) (civil_from_days (pos n)).month)
civil_from_days-counts n =
    let era = (n + 719468) / 146097 in
    let doe = (n + 719468) % 146097 in
    let same = civil_from_days-era_date n in
    (
      rw same (day_count-era_date era doe (omega arith) ∙ omega arith),
      civil_from_days-bounds (pos n),
      rw same (era_date-fits era doe (omega arith)),
    )
