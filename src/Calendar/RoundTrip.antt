-- ===== src/Calendar/RoundTrip.antt =====
-- From Jalali year 980 on, every date that exists comes back from the Gregorian calendar.
use zaraamad_portal_be.Base.{
  ℕ, ◌+◌, ◌-◌, ◌%◌, ◌≤◌, ◌<◌, ◌≡◌, ap, ◌∙◌, arith, some, ◌==◌, inl, inr, Bool-cases,
}
use zaraamad_portal_be.Calendar.{
  parts, jalali_of_days, jalali_days, jalali_month_day, gregorian_to_jalali, jalali_to_gregorian,
}
use zaraamad_portal_be.Calendar.Gregorian.{extra}
use zaraamad_portal_be.Calendar.Months.{gregorian_to_jalali-gregorian_of_days}
use zaraamad_portal_be.Calendar.Jalali.{
  IsJalali, jalali_start, day_of_year, leap_from_979, in_first_year, in_later_year,
  jalali_month_day-day_of_year,
}

jalali_days_lem :
    (y m d : ℕ)
    → 979 ≤ y
    → IsJalali (parts y m d)
    → jalali_days y m d ≡ 584467 + (jalali_start (y - 979) + day_of_year m d)
unfolding jalali_days
jalali_days_lem y m d h v = ground arith

day_of_year_bound :
    (y m d : ℕ)
    → 979 ≤ y
    → IsJalali (parts y m d)
    → (day_of_year m d < 365 + extra (leap_from_979 (y - 979)))
day_of_year_bound y m d h v = ground arith

jalali_of_days_start :
    (z n : ℕ)
    → n < 365 + extra (leap_from_979 z)
    → jalali_of_days 979 (jalali_start z + n) ≡ jalali_month_day (979 + z) n
jalali_of_days_start z n h = elim (Bool-cases (z % 33 % 4 == 0)) [
  | inl first ↦ in_first_year z n (ground arith) h
  | inr later ↦ in_later_year z n (ground arith) (ground arith)
]

-- A Jalali date that exists, from year 980 on, is the date that its Gregorian date converts to.
pub gregorian_to_jalali-jalali_to_gregorian :
    (y m d : ℕ)
    → 980 ≤ y
    → IsJalali (parts y m d)
    → gregorian_to_jalali (jalali_to_gregorian (parts y m d)) ≡ some (parts y m d)
unfolding jalali_to_gregorian
gregorian_to_jalali-jalali_to_gregorian y m d h v =
    let z = y - 979 in
    let n = day_of_year m d in
    let days : jalali_days y m d ≡ 584467 + (jalali_start z + n) =
      jalali_days_lem y m d (omega arith) v in
    gregorian_to_jalali-gregorian_of_days (jalali_days y m d) (omega arith)
    ∙ ap (λ (k : ℕ). some (jalali_of_days 979 k)) (omega (arith, days))
    ∙ ap some (
        jalali_of_days_start z n (day_of_year_bound y m d (omega arith) v)
        ∙ ap (λ (k : ℕ). jalali_month_day k n) (omega arith)
        ∙ jalali_month_day-day_of_year y m d v)
