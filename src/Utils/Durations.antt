-- ===== src/Utils/Durations.antt =====
-- `differTime` (web/src/utils/utils.js): how long a session has lasted, as a text. The two dates are
-- taken by the milliseconds from the first to the second, which is not before it, and by their years.
use next_terminal.Base.{
  ℕ, zero, suc, ◌+◌, ◌-◌, ◌*◌, ◌/◌, ◌%◌, ◌≤◌, ◌<◌, ◌≡◌, ltb, leb, if◌then◌else◌, [], ◌++◌, arith,
}
use next_terminal.Base.Text.{Text, codes, decimal}
use next_terminal.Utils.Times.{is_leap_year}

-- The loop over the years, by the rounds that are left.
unfoldable pub count_leap_years : ℕ → ℕ → ℕ
count_leap_years zero i = 0
count_leap_years (suc n) i = (if is_leap_year i then 1 else 0) + count_leap_years n (suc i)

pub record Parts : Type 0 where
  pub year : ℕ
  pub day : ℕ
  pub hour : ℕ
  pub minute : ℕ
  pub second : ℕ

-- `Math.floor((allDay - leapYear * 366) / 365 + leapYear)`; where that is negative it is not shown,
-- and stands here as 0.
unfoldable pub year_of : (all_day leap_year : ℕ) → ℕ
year_of all_day leap_year =
    if leb (leap_year * 366) all_day
    then (all_day - leap_year * 366) / 365 + leap_year
    else leap_year - (leap_year * 366 - all_day + 364) / 365

-- The days that are left; a negative remainder is not shown, and stands here as 0.
unfoldable pub day_of : (all_day leap_year : ℕ) → ℕ
day_of all_day leap_year =
    if ltb 366 all_day
    then (if leb (leap_year * 366) all_day then (all_day - leap_year * 366) % 365 else 0)
    else all_day

unfoldable pub parts_of : (elapsed leap_year : ℕ) → Parts
parts_of elapsed leap_year =
    let seconds = elapsed / 1000 in
    let all_day = seconds / (24 * 60 * 60) in
    let remainder = seconds % (24 * 60 * 60) in
    let hour = remainder / (60 * 60) in
    let minute = remainder % (60 * 60) / 60 in
    record {
      year = year_of all_day leap_year;
      day = day_of all_day leap_year;
      hour = hour;
      minute = minute;
      second = remainder - hour * 60 * 60 - minute * 60;
    }

abbrev shown : ℕ → Text → Text
shown n unit = if ltb 0 n then decimal n ++ unit else []

unfoldable pub show_parts : Parts → Text
show_parts p =
    shown p.year (codes "年")
    ++ (shown p.day (codes "天")
        ++ (shown p.hour (codes "小时")
            ++ (shown p.minute (codes "分钟") ++ shown p.second (codes "秒"))))

unfoldable pub differ_time : (elapsed start_year current_year : ℕ) → Text
differ_time elapsed start_year current_year =
    show_parts (parts_of elapsed (count_leap_years (current_year - start_year) start_year))

-- The milliseconds of a day
abbrev pub day_millis : ℕ
day_millis = 86400000

year_of_short : (all_day leap_year : ℕ) → all_day < 365 → year_of all_day leap_year ≡ 0
unfolding year_of
year_of_short all_day leap_year h = ground arith

-- For less than 365 days, whatever the count of leap years, the parts of differTime show no year,
-- add up to the whole seconds, and the hours, minutes and seconds are in their ranges.
pub parts_of-total :
    (elapsed leap_year : ℕ)
    → elapsed < 365 * day_millis
    → ((parts_of elapsed leap_year).year ≡ 0)
      × ((parts_of elapsed leap_year).day * 86400
            + (parts_of elapsed leap_year).hour * 3600
            + (parts_of elapsed leap_year).minute * 60
            + (parts_of elapsed leap_year).second
          ≡ elapsed / 1000)
      × ((parts_of elapsed leap_year).hour < 24)
      × ((parts_of elapsed leap_year).minute < 60)
      × ((parts_of elapsed leap_year).second < 60)
unfolding parts_of day_of
parts_of-total elapsed leap_year h = (
  year_of_short (elapsed / 1000 / 86400) leap_year (omega arith),
  ground arith,
  omega arith,
  omega arith,
  omega arith,
)

-- From 365 days and one for each leap year counted, and below 367 days, the parts of differTime are
-- one year and, besides, all of the days.
pub parts_of-doubled :
    (elapsed leap_year : ℕ)
    → (365 + leap_year) * day_millis ≤ elapsed
    → elapsed < 367 * day_millis
    → ((parts_of elapsed leap_year).year ≡ 1)
      × ((parts_of elapsed leap_year).day ≡ elapsed / day_millis)
unfolding parts_of day_of year_of
parts_of-doubled elapsed leap_year h l = (ground arith, ground arith)
