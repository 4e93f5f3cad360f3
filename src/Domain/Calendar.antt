-- ===== src/Domain/Calendar.antt =====
-- src/domain.cpp: civil dates, the season of an instant, and the days of the week.
pub mod Laws
use shigoku.Common.{
  ℕ, zero, suc, ◌+◌, ◌-◌, ◌*◌, ◌/◌, ◌%◌, ◌^◌, Bool, true, false, if◌then◌else◌, leb, ltb, ◌==◌,
}
use shigoku.Common.Int.{ℤ, pos, negsuc, ◌+ℤ◌, ◌-ℤ◌, ltb_ℤ, pos_part, sub_ℕ}
use shigoku.Domain.Types.{Season, Weekday}
use shigoku.Domain.Enums.{season_from_month}

-- `/` and `%` by a positive number, which truncate towards zero, and a product.
abbrev pub quot_ℤ : ℤ → ℕ → ℤ
quot_ℤ (pos n) d = pos (n / d)
quot_ℤ (negsuc n) d = sub_ℕ 0 (suc n / d)

abbrev pub rem_ℤ : ℤ → ℕ → ℤ
rem_ℤ (pos n) d = pos (n % d)
rem_ℤ (negsuc n) d = sub_ℕ 0 (suc n % d)

abbrev pub scale_ℤ : ℤ → ℕ → ℤ
scale_ℤ (pos n) k = pos (n * k)
scale_ℤ (negsuc n) k = sub_ℕ 0 (suc n * k)

pub record Ymd : Type 0 where
  pub year : ℤ
  pub month : ℕ
  pub day : ℕ

-- The steps of `civil_from_days`, on the day of a 400-year era; none of the differences is negative.
unfoldable pub year_of_era : ℕ → ℕ
year_of_era doe = (doe - doe / 1460 + doe / 36524 - doe / 146096) / 365

unfoldable pub day_of_year : ℕ → ℕ → ℕ
day_of_year doe yoe = doe - (365 * yoe + yoe / 4 - yoe / 100)

unfoldable pub shifted_month : ℕ → ℕ
shifted_month doy = (5 * doy + 2) / 153

unfoldable pub day_of_month : ℕ → ℕ → ℕ
day_of_month doy mp = doy - (153 * mp + 2) / 5 + 1

unfoldable pub month_from : ℕ → ℕ
month_from mp = if ltb mp 10 then mp + 3 else mp - 9

unfoldable pub era_of : ℤ → ℤ
era_of z = quot_ℤ (if ltb_ℤ z (pos 0) then z -ℤ pos 146096 else z) 146097

unfoldable pub day_of_era : ℤ → ℤ
day_of_era z = z -ℤ scale_ℤ (era_of z) 146097

unfoldable pub civil_from_days : ℤ → Ymd
civil_from_days days =
    let z = days +ℤ pos 719468 in
    let doe = pos_part (day_of_era z) in
    let yoe = year_of_era doe in
    let doy = day_of_year doe yoe in
    let mp = shifted_month doy in
    let month = month_from mp in
    record {
      year = pos yoe +ℤ scale_ℤ (era_of z) 400 +ℤ (if leb month 2 then pos 1 else pos 0);
      month = month;
      day = day_of_month doy mp;
    }

pub record Cour : Type 0 where
  pub season : Season
  pub year : ℕ

unfoldable pub current_cour : ℤ → Cour
current_cour unix_secs =
    let ymd = civil_from_days (pos (pos_part unix_secs / 86400)) in
    record {
      season = season_from_month ymd.month;
      year = (if ymd.month == 12 then pos_part ymd.year + 1 else pos_part ymd.year) % 2 ^ 32;
    }

-- Floor division by the seconds of a day.
abbrev pub epoch_day : ℤ → ℤ
epoch_day (pos n) = pos (n / 86400)
epoch_day (negsuc n) = sub_ℕ 0 ((suc n + 86399) / 86400)

-- The weekday's number from Monday; 1970-01-01 was a Thursday.
unfoldable pub weekday_index : ℤ → ℕ
weekday_index unix_secs =
    let idx = rem_ℤ (epoch_day unix_secs +ℤ pos 3) 7 in
    pos_part (if ltb_ℤ idx (pos 0) then idx +ℤ pos 7 else idx)

-- `floor_div` by a positive number.
unfoldable pub floor_div : ℤ → ℕ → ℤ
floor_div (pos n) d = pos (n / d)
floor_div (negsuc n) d =
    if suc n % d == 0 then sub_ℕ 0 (suc n / d) else sub_ℕ 0 (suc n / d) -ℤ pos 1
