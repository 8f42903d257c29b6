-- ===== src/Calendar/Months.antt =====
-- The loop over the Gregorian months, and the way back from a Gregorian date to a count of days.
use zaraamad_portal_be.Base.{
  ℕ, if◌then◌else◌, zero, suc, ◌+◌, ◌-◌, ◌*◌, ◌≤◌, ◌<◌, ◌≡◌, refl, sym, ap, ◌∙◌, Bool, true, false,
  ◌&&◌, arith, some, ◌==◌, ltb, leb, inl, inr, Bool-cases,
}
use mathlib.Core.Path.{subst}
use zaraamad_portal_be.Calendar.{
  DateParts, parts, gregorian_day_offset, gregorian_month_length, month_loop, gregorian_month_day,
  gregorian_of_days, gregorian_days, jalali_of_days, gregorian_to_jalali,
}
use zaraamad_portal_be.Calendar.Gregorian.{is_leap, leaps, extra, gregorian_of_days-IsDayOf}

every_day : (ℕ → Bool) → ℕ → Bool
every_day test zero = true
every_day test (suc last) = if test last then every_day test last else false

test-every_day :
    (test : ℕ → Bool) (year_length day : ℕ)
    → day < year_length
    → every_day test year_length ≡ true
    → test day ≡ true
unfolding every_day
test-every_day test zero day early checked = absurd (omega arith)
test-every_day test (suc last) day early checked = ground (arith, test-every_day test last day)

-- The month and the day are a real date, and come back to the day `n` of the year.
is_month_day : Bool → ℕ → ℕ × ℕ → Bool
is_month_day leap n (m, d) =
    leb 1 m
    && leb m 12
    && leb 1 d
    && leb d (gregorian_month_length leap m)
    && (d + gregorian_day_offset m + extra (leap && ltb 2 m) == n + 1)

common_table : every_day (λ n. is_month_day false n (month_loop 12 false 1 (n + 1))) 365 ≡ true
unfolding every_day is_month_day month_loop
common_table = refl

leap_table : every_day (λ n. is_month_day true n (month_loop 12 true 1 (n + 1))) 366 ≡ true
unfolding every_day is_month_day month_loop
leap_table = refl

month_table :
    (leap : Bool) (n : ℕ)
    → n < 365 + extra leap
    → is_month_day leap n (month_loop 12 leap 1 (n + 1)) ≡ true
month_table true n h = test-every_day _ 366 n (omega arith) leap_table
month_table false n h = test-every_day _ 365 n (omega arith) common_table

-- A Gregorian date that exists.
pub record IsGregorian (g : DateParts) : Type 0 where
  pub month_from : 1 ≤ g.month
  pub month_to : g.month ≤ 12
  pub day_from : 1 ≤ g.day
  pub day_to : g.day ≤ gregorian_month_length (is_leap g.year) g.month

month_day-IsGregorian :
    (y : ℕ) (leap : Bool) (n : ℕ) (md : ℕ × ℕ)
    → leap ≡ is_leap y
    → is_month_day leap n md ≡ true
    → IsGregorian (parts y md.0 md.1)
unfolding is_month_day
month_day-IsGregorian y leap n (m, d) e h = ground arith

last_of : (a b c d : Bool) (m n : ℕ) → (a && b && c && d && (m == n)) ≡ true → m ≡ n
last_of a b c d m n h = ground arith

day_of_year :
    (leap : Bool) (n : ℕ) (md : ℕ × ℕ)
    → is_month_day leap n md ≡ true
    → md.1 + gregorian_day_offset md.0 + extra (leap && ltb 2 md.0) ≡ n + 1
unfolding is_month_day
day_of_year leap n (m, d) h =
    last_of (leb 1 m) (leb m 12) (leb 1 d) (leb d (gregorian_month_length leap m)) _ _ h

leaps-suc : (z : ℕ) → leaps (z + 1) ≡ leaps z + extra (is_leap z)
leaps-suc z = ground arith

gregorian_days_early :
    (z m d : ℕ)
    → ltb 2 m ≡ false
    → gregorian_days z m d ≡ 365 * z + leaps z + d + gregorian_day_offset m
unfolding gregorian_days
gregorian_days_early z m d h = rw h (omega arith)

gregorian_days_late :
    (z m d : ℕ)
    → ltb 2 m ≡ true
    → gregorian_days z m d ≡ 365 * z + leaps (z + 1) + d + gregorian_day_offset m
unfolding gregorian_days
gregorian_days_late z m d h = rw h (omega arith)

extra_late : (leap b : Bool) → b ≡ true → extra (leap && b) ≡ extra leap
extra_late leap b h = ground arith

extra_early : (leap b : Bool) → b ≡ false → extra (leap && b) ≡ 0
extra_early leap b h = ground arith

gregorian_days_lem :
    (z n : ℕ) (leap : Bool) (md : ℕ × ℕ)
    → leap ≡ is_leap z
    → is_month_day leap n md ≡ true
    → gregorian_days z md.0 md.1 ≡ 365 * z + leaps z + n + 1
gregorian_days_lem z n leap (m, d) e h = elim (Bool-cases (ltb 2 m)) [
  | inl late ↦ omega (
    arith,
    gregorian_days_late z m d late,
    leaps-suc z,
    ap extra e,
    day_of_year leap n (m, d) h,
    extra_late leap (ltb 2 m) late,
  )
  | inr early ↦ omega (
    arith,
    gregorian_days_early z m d early,
    day_of_year leap n (m, d) h,
    extra_early leap (ltb 2 m) early,
  )
]

-- Every count of days names a date that exists.
pub gregorian_of_days-IsGregorian : (n : ℕ) → IsGregorian (gregorian_of_days n)
unfolding gregorian_month_day
gregorian_of_days-IsGregorian n =
    let (y, leap, k, e, l, lt, _) = gregorian_of_days-IsDayOf n in
    subst IsGregorian (sym e)
      (month_day-IsGregorian y leap k (month_loop 12 leap 1 (k + 1)) l (month_table leap k lt))

is_leap_shift : (y : ℕ) → 1600 < y → is_leap y ≡ is_leap (y - 1600)
is_leap_shift y h = ground arith

from_1601 : (y n total : ℕ) → 584754 ≤ total → total ≡ 365 * y + leaps y + n → n < 366 → 1600 < y
from_1601 y n total h e lt = omega arith

total_shift :
    (y n total : ℕ)
    → 1600 < y
    → total ≡ 365 * y + leaps y + n
    → 365 * (y - 1600) + leaps (y - 1600) + n + 1 - 80 ≡ total - 584467
total_shift y n total h e = omega arith

to_jalali_lem :
    (y m d : ℕ)
    → 1600 < y
    → 80 ≤ gregorian_days (y - 1600) m d
    → gregorian_to_jalali (parts y m d)
      ≡ some (jalali_of_days 979 (gregorian_days (y - 1600) m d - 80))
unfolding gregorian_to_jalali
to_jalali_lem y m d h k = ground arith

-- From Gregorian 1601 on `_gregorian_to_jalali` reads the count of days back.
pub gregorian_to_jalali-gregorian_of_days :
    (total : ℕ)
    → 584754 ≤ total
    → gregorian_to_jalali (gregorian_of_days total) ≡ some (jalali_of_days 979 (total - 584467))
unfolding gregorian_month_day
gregorian_to_jalali-gregorian_of_days total h =
    let (y, leap, n, e, l, lt, t) = gregorian_of_days-IsDayOf total in
    let late : 1600 < y = from_1601 y n total h t (ground arith) in
    let md = month_loop 12 leap 1 (n + 1) in
    let days : gregorian_days (y - 1600) md.0 md.1 ≡ 365 * (y - 1600) + leaps (y - 1600) + n + 1 =
      gregorian_days_lem (y - 1600) n leap md (l ∙ is_leap_shift y late) (month_table leap n lt) in
    ap gregorian_to_jalali e
    ∙ to_jalali_lem y md.0 md.1 late (omega arith)
    ∙ ap (λ k. some (jalali_of_days 979 k)) (ap (λ k. k - 80) days ∙ total_shift y n total late t)

pub year-gregorian_month_day :
    (y : ℕ) (leap : Bool) (n : ℕ) → (gregorian_month_day y leap n).year ≡ y
unfolding gregorian_month_day
year-gregorian_month_day y leap n = refl
