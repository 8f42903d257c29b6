-- ===== src/Calendar/Accepts.antt =====
-- Which Jalali dates the validators accept, and in which form they give them back.
use zaraamad_portal_be.Base.{ℕ, ◌+◌, ◌-◌, ◌*◌, ◌≤◌, ◌<◌, ◌≡◌, ◌↔◌, ap, ◌∙◌, arith, some, le→leb}
use mathlib.Core.Path.{subst}
use zaraamad_portal_be.Calendar.{
  DateParts, parts, jalali_of_days, jalali_days, gregorian_of_days, gregorian_to_jalali,
  jalali_to_gregorian,
}
use zaraamad_portal_be.Calendar.Gregorian.{gregorian_of_days-IsDayOf, leaps}
use zaraamad_portal_be.Calendar.Months.{
  gregorian_to_jalali-gregorian_of_days, IsGregorian, gregorian_of_days-IsGregorian,
  year-gregorian_month_day,
}
use zaraamad_portal_be.Calendar.Jalali.{IsJalali, jalali_of_days-IsJalali}
use zaraamad_portal_be.Calendar.RoundTrip.{gregorian_to_jalali-jalali_to_gregorian}
use zaraamad_portal_be.Calendar.Validator.{date, jalali_date_parts_to_gregorian_date, checked_parts}

days_bounds :
    (y m d : ℕ)
    → 980 ≤ y
    → y ≤ 9377
    → 1 ≤ m
    → m ≤ 12
    → 1 ≤ d
    → d ≤ 31
    → (584754 ≤ jalali_days y m d) × (jalali_days y m d < 3652425)
unfolding jalali_days
days_bounds y m d lo hi m1 m2 d1 d2 = (ground arith, ground arith)

year_bounds :
    (y n total : ℕ)
    → 584754 ≤ total
    → total < 3652425
    → total ≡ 365 * y + leaps y + n
    → n < 366
    → (1 ≤ y) × (y ≤ 9999)
year_bounds y n total lo hi e h = (omega arith, omega arith)

date_lem : (g : DateParts) → IsGregorian g → 1 ≤ g.year → g.year ≤ 9999 → date g ≡ some g
unfolding date
date_lem g v lo hi = rw (
  le→leb 1 g.year lo,
  le→leb g.year 9999 hi,
  le→leb 1 g.month v.month_from,
  le→leb g.month 12 v.month_to,
  le→leb 1 g.day v.day_from,
  le→leb g.day _ v.day_to,
)

year-gregorian_of_days :
    (total : ℕ)
    → 584754 ≤ total
    → total < 3652425
    → (1 ≤ (gregorian_of_days total).year) × ((gregorian_of_days total).year ≤ 9999)
year-gregorian_of_days total lo hi =
    let (y, leap, n, e, l, lt, t) = gregorian_of_days-IsDayOf total in
    let same : (gregorian_of_days total).year ≡ y =
      ap (λ (g : DateParts). g.year) e ∙ year-gregorian_month_day y leap n in
    rw same (year_bounds y n total lo hi t (ground arith))

-- The Gregorian date of a Jalali one is a date of Python's range.
jalali_date-date :
    (y m d : ℕ)
    → 980 ≤ y
    → y ≤ 9377
    → 1 ≤ m
    → m ≤ 12
    → 1 ≤ d
    → d ≤ 31
    → jalali_date_parts_to_gregorian_date (parts y m d) ≡ some (jalali_to_gregorian (parts y m d))
unfolding jalali_date_parts_to_gregorian_date jalali_to_gregorian
jalali_date-date y m d lo hi m1 m2 d1 d2 =
    let (from, to) = days_bounds y m d lo hi m1 m2 d1 d2 in
    let total = jalali_days y m d in
    let years = year-gregorian_of_days total from to in
    date_lem (gregorian_of_days total) (gregorian_of_days-IsGregorian total) years.0 years.1

to_jalali-IsJalali :
    (y m d : ℕ)
    → 980 ≤ y
    → y ≤ 9377
    → 1 ≤ m
    → m ≤ 12
    → 1 ≤ d
    → d ≤ 31
    → (j : DateParts) × (gregorian_to_jalali (jalali_to_gregorian (parts y m d)) ≡ some j)
      × IsJalali j
unfolding jalali_to_gregorian
to_jalali-IsJalali y m d lo hi m1 m2 d1 d2 =
    let total = jalali_days y m d in
    (
      jalali_of_days 979 (total - 584467),
      gregorian_to_jalali-gregorian_of_days total (days_bounds y m d lo hi m1 m2 d1 d2).0,
      jalali_of_days-IsJalali (total - 584467),
    )

-- What the checks of `_parse_jalali_date_parts` have seen when they let numbers pass.
abbrev pub Passes : DateParts → DateParts → Type 0
Passes j k =
    (1 ≤ j.month)
    × (j.month ≤ 12)
    × (1 ≤ j.day)
    × (j.day ≤ 31)
    × (k ≡ j)
    × (g : DateParts) × (jalali_date_parts_to_gregorian_date j ≡ some g)
    × (gregorian_to_jalali g ≡ some j)

pub checked_parts-Passes : (j k : DateParts) → checked_parts j ≡ some k → Passes j k
unfolding checked_parts
checked_parts-Passes j k h = ground arith

Passes-checked_parts :
    (j g : DateParts)
    → 1 ≤ j.month
    → j.month ≤ 12
    → 1 ≤ j.day
    → j.day ≤ 31
    → jalali_date_parts_to_gregorian_date j ≡ some g
    → gregorian_to_jalali g ≡ some j
    → checked_parts j ≡ some j
unfolding checked_parts
Passes-checked_parts j g m1 m2 d1 d2 e f = ground arith

accepted_only :
    (y m d : ℕ)
    → 980 ≤ y
    → y ≤ 9377
    → checked_parts (parts y m d) ≡ some (parts y m d)
    → IsJalali (parts y m d)
accepted_only y m d lo hi h =
    let (m1, m2, d1, d2, _, g, e, f) = checked_parts-Passes (parts y m d) (parts y m d) h in
    let same : jalali_to_gregorian (parts y m d) ≡ g =
      cc (jalali_date-date y m d lo hi m1 m2 d1 d2) in
    let (j, found, v) = to_jalali-IsJalali y m d lo hi m1 m2 d1 d2 in subst IsJalali (cc) v

-- For the years 980 to 9377 the checks accept exactly the dates that exist.
pub checked_parts_iff :
    (y m d : ℕ)
    → 980 ≤ y
    → y ≤ 9377
    → (checked_parts (parts y m d) ≡ some (parts y m d)) ↔ IsJalali (parts y m d)
checked_parts_iff y m d lo hi = (
  accepted_only y m d lo hi,
  λ v.
      let days : d ≤ 31 = ground arith in
      Passes-checked_parts (parts y m d) (jalali_to_gregorian (parts y m d)) v.month_from v.month_to
        v.day_from days (jalali_date-date y m d lo hi v.month_from v.month_to v.day_from days)
        (gregorian_to_jalali-jalali_to_gregorian y m d lo v),
)
