-- ===== src/Calendar.antt =====
-- app/common/formatters/jalali_datetime.py: dates between the Jalali and the Gregorian calendar.
-- Years, months and days are natural numbers; where an intermediate number of the source could
-- fall below zero the conversion is not modelled and the result is `none`.
pub mod Gregorian
pub mod Months
pub mod Jalali
pub mod RoundTrip
pub mod Validator
pub mod Accepts
pub mod Canonical
mod Tests
use zaraamad_portal_be.Base.{
  ℕ, zero, suc, ◌+◌, ◌-◌, ◌*◌, ◌/◌, ◌%◌, Bool, true, false, Option, none, some, ◌==◌, ltb, leb,
  if◌then◌else◌, ◌&&◌,
}

-- A year, a month and a day.
pub record DateParts : Type 0 where
  pub year : ℕ
  pub month : ℕ
  pub day : ℕ

abbrev pub parts : ℕ → ℕ → ℕ → DateParts
parts y m d = record { year = y; month = m; day = d }

-- `gregorian_day_offsets[month - 1]`
abbrev pub gregorian_day_offset : ℕ → ℕ
gregorian_day_offset month =
    if month == 1
    then 0
    else if month == 2
    then 31
    else if month == 3
    then 59
    else if month == 4
    then 90
    else if month == 5
    then 120
    else if month == 6
    then 151
    else if month == 7
    then 181
    else if month == 8
    then 212
    else if month == 9
    then 243
    else if month == 10
    then 273
    else if month == 11
    then 304
    else 334

-- The second half of `_gregorian_to_jalali`, from `if days < 186` on.
pub jalali_month_day : ℕ → ℕ → DateParts
jalali_month_day year days =
    if ltb days 186
    then parts year (1 + days / 31) (1 + days % 31)
    else parts year (7 + (days - 186) / 30) (1 + (days - 186) % 30)

-- From `jalali_year += 33 * (days // 12053)` on.
pub jalali_of_days : ℕ → ℕ → DateParts
jalali_of_days base days =
    let year = base + 33 * (days / 12053) in
    let in_cycle = days % 12053 in
    let year' = year + 4 * (in_cycle / 1461) in
    let rest = in_cycle % 1461 in
    if ltb 365 rest
    then jalali_month_day (year' + (rest - 1) / 365) ((rest - 1) % 365)
    else jalali_month_day year' rest

-- The sum that is assigned to `days`, before the 80 is taken off.
pub gregorian_days : ℕ → ℕ → ℕ → ℕ
gregorian_days year month day =
    let leap_adjusted_year = if ltb 2 month then year + 1 else year in
    365 * year
    + (leap_adjusted_year + 3) / 4
    + (leap_adjusted_year + 399) / 400
    - (leap_adjusted_year + 99) / 100
    + day
    + gregorian_day_offset month

-- `_gregorian_to_jalali`
unfoldable pub gregorian_to_jalali : DateParts → Option DateParts
gregorian_to_jalali g =
    let base = if ltb 1600 g.year then 979 else 0 in
    let year = if ltb 1600 g.year then g.year - 1600 else g.year - 621 in
    let total = gregorian_days year g.month g.day in
    if leb 621 g.year && leb 80 total then some (jalali_of_days base (total - 80)) else none

-- `gregorian_month_lengths[month]`
abbrev pub gregorian_month_length : Bool → ℕ → ℕ
gregorian_month_length leap_year month =
    if month == 2
    then (if leap_year then 29 else 28)
    else if month == 4
    then 30
    else if month == 6
    then 30
    else if month == 9
    then 30
    else if month == 11
    then 30
    else 31

-- The loop over the months, with the rounds that are left until month 13.
pub month_loop : ℕ → Bool → ℕ → ℕ → ℕ × ℕ
month_loop zero leap_year month day = (month, day)
month_loop (suc rounds) leap_year month day =
    let rest =
      month_loop rounds leap_year (month + 1) (day - gregorian_month_length leap_year month) in
    if ltb (gregorian_month_length leap_year month) day then rest else (month, day)

-- From `gregorian_day = days + 1` on: 12 rounds lead from month 1 past month 12.
pub gregorian_month_day : ℕ → Bool → ℕ → DateParts
unfolding month_loop
gregorian_month_day year leap_year days =
    let (month, day) = month_loop 12 leap_year 1 (days + 1) in parts year month day

-- From `gregorian_year += 4 * (days // 1461)` on.
pub gregorian_of_era : ℕ → Bool → ℕ → DateParts
unfolding gregorian_month_day
gregorian_of_era year leap_year days =
    let year' = year + 4 * (days / 1461) in
    let rest = days % 1461 in
    if leb 366 rest
    then gregorian_month_day (year' + (rest - 1) / 365) false ((rest - 1) % 365)
    else gregorian_month_day year' leap_year rest

-- From `gregorian_year = 400 * (days // 146097)` on.
pub gregorian_of_days : ℕ → DateParts
unfolding gregorian_of_era
gregorian_of_days days =
    let year = 400 * (days / 146097) in
    let in_cycle = days % 146097 in
    if leb 36525 in_cycle
    then (let year' = year + 100 * ((in_cycle - 1) / 36524) in
        let rest = (in_cycle - 1) % 36524 in
        if leb 365 rest
        then gregorian_of_era year' true (rest + 1)
        else gregorian_of_era year' false rest)
    else gregorian_of_era year true in_cycle

-- The sum that is assigned to `days`. It is above 355668 for every year from 0 on.
pub jalali_days : ℕ → ℕ → ℕ → ℕ
jalali_days year month day =
    let y = year + 1595 in
    365 * y
    + y / 33 * 8
    + (y % 33 + 3) / 4
    + day
    + (if leb month 6 then (month - 1) * 31 else (month - 7) * 30 + 186)
    - 355668

-- `_jalali_to_gregorian`
unfoldable pub jalali_to_gregorian : DateParts → DateParts
jalali_to_gregorian j = gregorian_of_days (jalali_days j.year j.month j.day)
