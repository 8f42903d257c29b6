-- ===== src/Calendar/Validator.antt =====
-- app/common/validators/jalali_datetime.py: the checks of Jalali dates and times that arrive as
-- text. `decimal` is the value of a decimal digit, as `\d` and `int` read it (not only of ASCII);
-- `datetime.date` accepts the years 1 to 9999.
use zaraamad_portal_be.Base.{
  ℕ, ◌+◌, ◌*◌, ◌/◌, ◌%◌, Bool, true, false, ◌&&◌, ◌||◌, Option, none, some, [], ◌∷◌, ◌++◌, ◌==◌,
  leb, if◌then◌else◌, take, is_some,
}
use zaraamad_portal_be.Text.{Text, strip}
use zaraamad_portal_be.Calendar.{
  DateParts, parts, gregorian_month_length, gregorian_to_jalali, jalali_to_gregorian,
}
use zaraamad_portal_be.Calendar.Gregorian.{is_leap}

infixl 5 ◌>>=◌
abbrev ◌>>=◌ {ℓ κ} : {A : Type ℓ} {B : Type κ} → Option A → (A → Option B) → Option B
none >>= f = none
some a >>= f = f a

-- `if not test: raise ValueError`
abbrev check : Bool → Option (Unit {0})
check true = some tt
check false = none

abbrev ◌>>◌ {ℓ} : {B : Type ℓ} → Option (Unit {0}) → Option B → Option B
m >> k = m >>= λ _. k

infixl 5 ◌>>◌
-- `datetime.date(year, month, day)`, which raises outside its range.
unfoldable pub date : DateParts → Option DateParts
date g =
    if leb 1 g.year
      && leb g.year 9999
      && leb 1 g.month
      && leb g.month 12
      && leb 1 g.day
      && leb g.day (gregorian_month_length (is_leap g.year) g.month)
    then some g
    else none

-- `jalali_date_parts_to_gregorian_date`
unfoldable pub jalali_date_parts_to_gregorian_date : DateParts → Option DateParts
jalali_date_parts_to_gregorian_date j = date (jalali_to_gregorian j)

abbrev parts_eq : DateParts → DateParts → Bool
parts_eq a b = a.year == b.year && (a.month == b.month && a.day == b.day)

-- `_parse_jalali_date_parts` from the numbers of the match on.
unfoldable pub checked_parts : DateParts → Option DateParts
checked_parts j = do
  check (leb 1 j.month && leb j.month 12)
  check (leb 1 j.day && leb j.day 31)
  gregorian ← jalali_date_parts_to_gregorian_date j
  normalized ← gregorian_to_jalali gregorian
  check (parts_eq j normalized)
  some j

-- `f"{n:04d}"` and `f"{n:02d}"`, for numbers of at most four and two digits.
abbrev pub four_digits : ℕ → Text
four_digits n = (48 + n / 1000 % 10) ∷ (48 + n / 100 % 10) ∷ (48 + n / 10 % 10) ∷ (48 + n % 10) ∷ []

abbrev pub two_digits : ℕ → Text
two_digits n = (48 + n / 10 % 10) ∷ (48 + n % 10) ∷ []

unfoldable pub format_date : DateParts → Text
format_date j = four_digits j.year ++ b'-' ∷ (two_digits j.month ++ b'-' ∷ two_digits j.day)

pub record TimeParts : Type 0 where
  pub hour : ℕ
  pub minute : ℕ
  pub second : ℕ

unfoldable pub format_time : TimeParts → Text
format_time t = two_digits t.hour ++ b':' ∷ (two_digits t.minute ++ b':' ∷ two_digits t.second)

module _ (decimal : ℕ → Option ℕ) where
  unfoldable pub two_numbers : ℕ → ℕ → Option ℕ
  two_numbers a b = do x ← decimal a; y ← decimal b; some (10 * x + y)

  unfoldable pub four_numbers : ℕ → ℕ → ℕ → ℕ → Option ℕ
  unfolding two_numbers
  four_numbers a b c d = do x ← two_numbers a b; y ← two_numbers c d; some (100 * x + y)

  -- `(?P<year>\d{4})-(?P<month>\d{2})-(?P<day>\d{2})` at the front of a text, with what follows.
  unfoldable pub match_date : Text → Option (DateParts × Text)
  match_date (a ∷ b ∷ c ∷ d ∷ s ∷ e ∷ f ∷ t ∷ g ∷ h ∷ rest) = do
    year ← four_numbers a b c d
    check (s == b'-')
    month ← two_numbers e f
    check (t == b'-')
    day ← two_numbers g h
    some (parts year month day, rest)
  match_date _ = none

  abbrev at_end : {A : Type 0} → A × Text → Option A
  at_end (a, []) = some a
  at_end (a, _ ∷ _) = none

  -- `_parse_jalali_date_parts`
  unfoldable pub parse_jalali_date_parts : Text → Option DateParts
  parse_jalali_date_parts value = do matched ← match_date value; j ← at_end matched; checked_parts j

  unfoldable pub validate_jalali_date_string : Text → Option Text
  validate_jalali_date_string value = do
    j ← parse_jalali_date_parts (strip value)
    some (format_date j)

  unfoldable pub jalali_date_string_to_gregorian_date : Text → Option DateParts
  jalali_date_string_to_gregorian_date value = do
    normalized ← validate_jalali_date_string value
    j ← parse_jalali_date_parts normalized
    jalali_date_parts_to_gregorian_date j

  -- `[ T](?P<hour>\d{2}):(?P<minute>\d{2}):(?P<second>\d{2})`
  unfoldable pub match_time : Text → Option (TimeParts × Text)
  match_time (s ∷ a ∷ b ∷ t ∷ c ∷ d ∷ u ∷ e ∷ f ∷ rest) = do
    check (s == b' ' || s == b'T')
    hour ← two_numbers a b
    check (t == b':')
    minute ← two_numbers c d
    check (u == b':')
    second ← two_numbers e f
    some (record { hour = hour; minute = minute; second = second }, rest)
  match_time _ = none

  skip_digits : Text → Text
  skip_digits [] = []
  skip_digits (c ∷ s) = if is_some (decimal c) then skip_digits s else c ∷ s

  -- `(?:\.\d+)?`
  unfoldable pub match_fraction : Text → Option Text
  unfolding skip_digits
  match_fraction [] = some []
  match_fraction (c ∷ []) = if c == b'.' then none else some (c ∷ [])
  match_fraction (c ∷ d ∷ s) =
      if c == b'.'
      then (if is_some (decimal d) then some (skip_digits s) else none)
      else some (c ∷ d ∷ s)

  -- `(?P<timezone>Z|[+-]\d{2}:?\d{2})?$`
  unfoldable pub match_timezone : Text → Bool
  match_timezone [] = true
  match_timezone (c ∷ []) = c == b'Z'
  match_timezone (s ∷ a ∷ b ∷ c ∷ d ∷ []) =
      (s == b'+' || s == b'-')
      && (is_some (decimal a)
          && (is_some (decimal b) && (is_some (decimal c) && is_some (decimal d))))
  match_timezone (s ∷ a ∷ b ∷ t ∷ c ∷ d ∷ []) =
      (s == b'+' || s == b'-')
      && (is_some (decimal a)
          && (is_some (decimal b) && (t == b':' && (is_some (decimal c) && is_some (decimal d)))))
  match_timezone _ = false

  unfoldable pub validate_jalali_datetime_string : Text → Option Text
  validate_jalali_datetime_string value = do
    matched ← match_date (strip value)
    timed ← match_time matched.1
    rest ← match_fraction timed.1
    check (match_timezone rest)
    j ← checked_parts matched.0
    check (leb timed.0.hour 23)
    check (leb timed.0.minute 59)
    check (leb timed.0.second 59)
    some (format_date j ++ b' ' ∷ format_time timed.0)

  unfoldable pub jalali_datetime_string_to_gregorian_date : Text → Option DateParts
  jalali_datetime_string_to_gregorian_date value = do
    normalized ← validate_jalali_datetime_string value
    jalali_date_string_to_gregorian_date (take 10 normalized)
