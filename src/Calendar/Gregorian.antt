-- ===== src/Calendar/Gregorian.antt =====
-- `_jalali_to_gregorian` below its first sum counts days: `gregorian_of_days n` is the Gregorian
-- date with `n` days before it from the beginning of year 0 on.
use zaraamad_portal_be.Base.{
  ℕ, ◌+◌, ◌-◌, ◌*◌, ◌/◌, ◌%◌, ◌≤◌, ◌<◌, ◌≡◌, refl, sym, inl, inr, Bool, true, false, not, ◌&&◌,
  ◌||◌, arith, ◌==◌, leb, if◌then◌else◌, Bool-cases,
}
use mathlib.Core.Path.{subst₂}
use zaraamad_portal_be.Calendar.{
  DateParts, gregorian_month_day, gregorian_of_era, gregorian_of_days,
}

-- The Gregorian rule.
abbrev pub is_leap : ℕ → Bool
is_leap y = (y % 4 == 0) && (not (y % 100 == 0) || (y % 400 == 0))

-- The leap years before year `y`, from year 0 on.
abbrev pub leaps : ℕ → ℕ
leaps y = (y + 3) / 4 + (y + 399) / 400 - (y + 99) / 100

abbrev pub extra : Bool → ℕ
extra leap = if leap then 1 else 0

-- The date is the `n`-th day of year `y`, both from 0 on, and lies `total` days after the start.
abbrev pub IsDayOf : ℕ → DateParts → Type 0
IsDayOf total g =
    (y : ℕ) × (leap : Bool) × (n : ℕ) × (g ≡ gregorian_month_day y leap n)
    × (leap ≡ is_leap y)
    × (n < 365 + extra leap)
    × (total ≡ 365 * y + leaps y + n)

-- Years in a century: `100 c + 4 k + e`.
leaps_in_century :
    (c k e : ℕ)
    → k < 25
    → e < 4
    → 0 < k + e
    → leaps (100 * c + 4 * k + e) + (if c % 4 == 0 then 0 else 1)
      ≡ leaps (100 * c) + k + (e + 3) / 4
leaps_in_century c k e hk he pos = ground arith

is_leap_in_century :
    (c k e : ℕ) → k < 25 → e < 4 → 0 < k + e → is_leap (100 * c + 4 * k + e) ≡ (e == 0)
is_leap_in_century c k e hk he pos = ground arith

is_leap_century : (c : ℕ) → is_leap (100 * c) ≡ (c % 4 == 0)
is_leap_century c = ground arith

-- The two ways out of `gregorian_of_era`: by its last year of four, and by its first three.
abbrev late_year : ℕ → ℕ → ℕ
late_year c days = 100 * c + 4 * (days / 1461) + (days % 1461 - 1) / 365

late_days :
    (c days : ℕ)
    → days < 36525
    → 366 ≤ days % 1461
    → (false ≡ is_leap (late_year c days))
      × (365 * (100 * c) + leaps (100 * c) + days
          ≡ 365 * late_year c days
            + leaps (late_year c days)
            + (days % 1461 - 1) % 365
            + (if c % 4 == 0 then 0 else 1))
late_days c days h late = (
  ground (arith, is_leap_in_century c (days / 1461) ((days % 1461 - 1) / 365)),
  ground (arith, leaps_in_century c (days / 1461) ((days % 1461 - 1) / 365)),
)

early_days :
    (c days : ℕ)
    → days < 36525
    → days % 1461 < 366
    → 0 < days / 1461
    → (true ≡ is_leap (100 * c + 4 * (days / 1461)))
      × (365 * (100 * c) + leaps (100 * c) + days
          ≡ 365 * (100 * c + 4 * (days / 1461))
            + leaps (100 * c + 4 * (days / 1461))
            + days % 1461
            + (if c % 4 == 0 then 0 else 1))
early_days c days h early pos = (
  ground (arith, is_leap_in_century c (days / 1461) 0),
  ground (arith, leaps_in_century c (days / 1461) 0),
)

abbrev century_start : ℕ → ℕ
century_start c = 365 * (100 * c) + leaps (100 * c)

-- A century that begins with a leap year.
leap_century-IsDayOf :
    (c days : ℕ)
    → c % 4 ≡ 0
    → days < 36525
    → IsDayOf (century_start c + days) (gregorian_of_era (100 * c) true days)
unfolding gregorian_of_era
leap_century-IsDayOf c days e h = elim (Bool-cases (leb 366 (days % 1461))) [
  | inl late ↦
      let (l, t) = late_days c days h (ground arith) in
      rw late (late_year c days, false, (days % 1461 - 1) % 365, refl, l, omega arith, ground arith)
  | inr early ↦ rw early (
    100 * c + 4 * (days / 1461),
    true,
    days % 1461,
    refl,
    ground (arith, early_days c days, is_leap_century c),
    ground arith,
    ground (arith, early_days c days),
  )
]

-- Another century, from its second year on, where the days count as if the first year were leap.
common_century-IsDayOf :
    (c days : ℕ)
    → 0 < c % 4
    → 365 ≤ days
    → days < 36524
    → IsDayOf (century_start c + days) (gregorian_of_era (100 * c) true (days + 1))
unfolding gregorian_of_era
common_century-IsDayOf c days e lo h = elim (Bool-cases (leb 366 ((days + 1) % 1461))) [
  | inl late ↦
      let (l, t) = late_days c (days + 1) (omega arith) (ground arith) in
      rw late (
        late_year c (days + 1),
        false,
        ((days + 1) % 1461 - 1) % 365,
        refl,
        l,
        omega arith,
        ground arith,
      )
  | inr early ↦ rw early (
    100 * c + 4 * ((days + 1) / 1461),
    true,
    (days + 1) % 1461,
    refl,
    ground (arith, early_days c (days + 1)),
    ground arith,
    ground (arith, early_days c (days + 1)),
  )
]

not_late : (days : ℕ) → days < 365 → leb 366 (days % 1461) ≡ false
not_late days h = ground arith

-- The first year of such a century.
common_year-IsDayOf :
    (c days : ℕ)
    → 0 < c % 4
    → days < 365
    → IsDayOf (century_start c + days) (gregorian_of_era (100 * c) false days)
unfolding gregorian_of_era
common_year-IsDayOf c days e h = rw (not_late days h) (
  100 * c + 4 * (days / 1461),
  false,
  days % 1461,
  refl,
  ground (arith, is_leap_century c),
  omega arith,
  ground arith,
)

abbrev century_of : ℕ → ℕ
century_of n = 4 * (n / 146097) + (n % 146097 - 1) / 36524

same_start : (q : ℕ) → 400 * q ≡ 100 * (4 * q)
same_start q = omega arith

same_century : (q b : ℕ) → 400 * q + 100 * b ≡ 100 * (4 * q + b)
same_century q b = omega arith

-- The three ways out of the code's tests on the 400 years.
days_leap :
    (n : ℕ)
    → leb 36525 (n % 146097) ≡ false
    → gregorian_of_days n ≡ gregorian_of_era (100 * (4 * (n / 146097))) true (n % 146097)
unfolding gregorian_of_days
days_leap n h = rw (h, same_start (n / 146097)) refl

days_common :
    (n : ℕ)
    → leb 36525 (n % 146097) ≡ true
    → leb 365 ((n % 146097 - 1) % 36524) ≡ true
    → gregorian_of_days n
      ≡ gregorian_of_era (100 * century_of n) true ((n % 146097 - 1) % 36524 + 1)
unfolding gregorian_of_days
days_common n h k = rw (h, k, same_century (n / 146097) ((n % 146097 - 1) / 36524)) refl

days_common_year :
    (n : ℕ)
    → leb 36525 (n % 146097) ≡ true
    → leb 365 ((n % 146097 - 1) % 36524) ≡ false
    → gregorian_of_days n ≡ gregorian_of_era (100 * century_of n) false ((n % 146097 - 1) % 36524)
unfolding gregorian_of_days
days_common_year n h k = rw (h, k, same_century (n / 146097) ((n % 146097 - 1) / 36524)) refl

century_total :
    (n : ℕ)
    → leb 36525 (n % 146097) ≡ true
    → (0 < century_of n % 4) × (century_start (century_of n) + (n % 146097 - 1) % 36524 ≡ n)
century_total n h = (ground arith, ground arith)

leap_total : (n : ℕ) → century_start (4 * (n / 146097)) + n % 146097 ≡ n
leap_total n = omega arith

-- `gregorian_of_days` finds the year and the day of the year that a count of days falls on.
pub gregorian_of_days-IsDayOf : (n : ℕ) → IsDayOf n (gregorian_of_days n)
gregorian_of_days-IsDayOf n = elim (Bool-cases (leb 36525 (n % 146097))) [
  | inr early ↦
      subst₂ IsDayOf (leap_total n) (sym (days_leap n early))
        (leap_century-IsDayOf (4 * (n / 146097)) (n % 146097) (omega arith) (ground arith))
  | inl late ↦ elim (Bool-cases (leb 365 ((n % 146097 - 1) % 36524))) [
    | inl on ↦ subst₂ IsDayOf (century_total n late).1 (sym (days_common n late on)) (
        common_century-IsDayOf (century_of n) ((n % 146097 - 1) % 36524) (century_total n late).0
          (ground arith) (omega arith))
    | inr first ↦ subst₂ IsDayOf (century_total n late).1 (sym (days_common_year n late first)) (
        common_year-IsDayOf (century_of n) ((n % 146097 - 1) % 36524) (century_total n late).0
          (ground arith))
  ]
]
