-- ===== src/Calendar/Tests.antt =====
-- Conversions at known dates, and the theorems of the calendar at some of them.
use zaraamad_portal_be.Base.{
  ℕ, ◌+◌, ◌-◌, ◌<◌, ◌≡◌, ◌↔◌, refl, ◌&&◌, Option, none, some, leb, if◌then◌else◌, arith,
}
use zaraamad_portal_be.Text.{codes, strip}
use zaraamad_portal_be.Calendar.{
  parts, jalali_month_day, jalali_days, gregorian_of_days, gregorian_days, jalali_of_days,
  gregorian_to_jalali, jalali_to_gregorian,
}
use zaraamad_portal_be.Calendar.Gregorian.{IsDayOf, gregorian_of_days-IsDayOf}
use zaraamad_portal_be.Calendar.Months.{IsGregorian, gregorian_of_days-IsGregorian}
use zaraamad_portal_be.Calendar.Jalali.{IsJalali}
use zaraamad_portal_be.Calendar.RoundTrip.{gregorian_to_jalali-jalali_to_gregorian}
use zaraamad_portal_be.Calendar.Accepts.{checked_parts_iff}
use zaraamad_portal_be.Calendar.Validator.{
  checked_parts, validate_jalali_date_string, jalali_date_string_to_gregorian_date, date,
  jalali_date_parts_to_gregorian_date, match_date, four_numbers, two_numbers,
  parse_jalali_date_parts, format_date, validate_jalali_datetime_string, match_time, match_fraction,
  match_timezone, format_time,
}
use zaraamad_portal_be.Calendar.Canonical.{validate_jalali_date_string_canonical}

nowruz_1403 : jalali_to_gregorian (parts 1403 1 1) ≡ parts 2024 3 20
unfolding jalali_to_gregorian jalali_days gregorian_of_days
nowruz_1403 = refl

back : gregorian_to_jalali (parts 2025 3 20) ≡ some (parts 1403 12 30)
unfolding gregorian_to_jalali gregorian_days jalali_of_days jalali_month_day
back = refl

-- The years up to 1600 of the Gregorian calendar are counted from year 621 with the leap years of
-- year 0, so these dates, which exist, do not come back, and the check refuses them.
lost_day : gregorian_to_jalali (jalali_to_gregorian (parts 979 1 1)) ≡ some (parts 978 12 29)
unfolding gregorian_to_jalali gregorian_days jalali_of_days jalali_month_day jalali_to_gregorian
    jalali_days gregorian_of_days
lost_day = refl

-- `unicodedata.decimal` on ASCII alone.
abbrev ascii_decimal : ℕ → Option ℕ
ascii_decimal c = if leb 48 c && leb c 57 then some (c - 48) else none

ascii_decimal_digit : (n : ℕ) → n < 10 → ascii_decimal (48 + n) ≡ some n
ascii_decimal_digit n h = ground arith

ascii_decimal_bound : (c n : ℕ) → ascii_decimal c ≡ some n → n < 10
ascii_decimal_bound c n h = ground arith

padded_date :
    validate_jalali_date_string ascii_decimal (codes " 1403-12-30 ") ≡ some (codes "1403-12-30")
unfolding validate_jalali_date_string parse_jalali_date_parts match_date four_numbers two_numbers
    checked_parts jalali_date_parts_to_gregorian_date date gregorian_to_jalali gregorian_days
    jalali_of_days jalali_month_day jalali_to_gregorian jalali_days gregorian_of_days format_date
    strip
padded_date = refl

zoned_datetime :
    validate_jalali_datetime_string ascii_decimal (codes "1403-12-30T23:05:09.25+03:30")
    ≡ some (codes "1403-12-30 23:05:09")
unfolding validate_jalali_datetime_string match_date match_time match_fraction match_timezone
    four_numbers two_numbers checked_parts jalali_date_parts_to_gregorian_date date
    gregorian_to_jalali gregorian_days jalali_of_days jalali_month_day jalali_to_gregorian
    jalali_days gregorian_of_days format_date format_time strip
zoned_datetime = refl

no_leap_day : validate_jalali_date_string ascii_decimal (codes "1402-12-30") ≡ none
unfolding validate_jalali_date_string parse_jalali_date_parts match_date four_numbers two_numbers
    checked_parts jalali_date_parts_to_gregorian_date date gregorian_to_jalali gregorian_days
    jalali_of_days jalali_month_day jalali_to_gregorian jalali_days gregorian_of_days format_date
    strip
no_leap_day = refl

gregorian_to_jalali-jalali_to_gregorian_example :
    gregorian_to_jalali (jalali_to_gregorian (parts 1403 12 30)) ≡ some (parts 1403 12 30)
gregorian_to_jalali-jalali_to_gregorian_example =
    gregorian_to_jalali-jalali_to_gregorian 1403 12 30 (omega arith) (ground arith)

checked_parts_iff_example :
    (checked_parts (parts 1402 12 30) ≡ some (parts 1402 12 30)) ↔ IsJalali (parts 1402 12 30)
checked_parts_iff_example = checked_parts_iff 1402 12 30 (omega arith) (omega arith)

gregorian_of_days-IsDayOf_example : IsDayOf 738900 (gregorian_of_days 738900)
gregorian_of_days-IsDayOf_example = gregorian_of_days-IsDayOf 738900

gregorian_of_days-IsGregorian_example : IsGregorian (gregorian_of_days 738900)
gregorian_of_days-IsGregorian_example = gregorian_of_days-IsGregorian 738900

validate_jalali_date_string_canonical_example :
    (validate_jalali_date_string ascii_decimal (codes "1403-12-30") ≡ some (codes "1403-12-30"))
    × (jalali_date_string_to_gregorian_date ascii_decimal (codes "1403-12-30")
        ≡ jalali_date_string_to_gregorian_date ascii_decimal (codes " 1403-12-30 "))
validate_jalali_date_string_canonical_example =
    validate_jalali_date_string_canonical ascii_decimal ascii_decimal_digit ascii_decimal_bound
      (codes " 1403-12-30 ") (codes "1403-12-30") padded_date
