-- ===== src/Calendar/Canonical.antt =====
-- The validators give a date back in one normal form, which they accept unchanged.
use zaraamad_portal_be.Base.{
  ℕ, ◌+◌, ◌/◌, ◌%◌, ◌<◌, ◌≡◌, refl, ap, ◌∙◌, arith, false, Option, some, [], ◌∷◌, inl, inr,
  Option-cases,
}
use zaraamad_portal_be.Text.{Text, strip, is_space, strip_lem}
use zaraamad_portal_be.Calendar.{DateParts}
use zaraamad_portal_be.Calendar.Accepts.{checked_parts-Passes}
use zaraamad_portal_be.Calendar.Validator.{
  checked_parts, format_date, match_date, parse_jalali_date_parts, validate_jalali_date_string,
  four_numbers, two_numbers, jalali_date_string_to_gregorian_date,
}

digit_space : (k : ℕ) → is_space (48 + k % 10) ≡ false
digit_space k = ground arith

strip-format_date : (j : DateParts) → strip (format_date j) ≡ format_date j
unfolding format_date
strip-format_date j = strip_lem _ (
  digit_space (j.year / 1000),
  (
    digit_space (j.year / 100),
    (
      digit_space (j.year / 10),
      (
        digit_space j.year,
        (
          refl,
          (
            digit_space (j.month / 10),
            (digit_space j.month, (refl, (digit_space (j.day / 10), (digit_space j.day, tt)))),
          ),
        ),
      ),
    ),
  ),
)

-- `decimal` knows the ASCII digits, and a decimal digit stands for a number below ten.
module _ (decimal : ℕ → Option ℕ) (ascii : (n : ℕ) → n < 10 → decimal (48 + n) ≡ some n)
    (below_ten : (c n : ℕ) → decimal c ≡ some n → n < 10) where
  digit : (k : ℕ) → decimal (48 + k % 10) ≡ some (k % 10)
  digit k = ascii (k % 10) (omega arith)

  two_numbers-two_digits :
      (n : ℕ) → n < 100 → two_numbers decimal (48 + n / 10 % 10) (48 + n % 10) ≡ some n
  unfolding two_numbers
  two_numbers-two_digits n h = ground (arith, digit (n / 10), digit n)

  four_numbers-four_digits :
      (n : ℕ)
      → n < 10000
      → four_numbers decimal
          (48 + n / 1000 % 10)
          (48 + n / 100 % 10)
          (48 + n / 10 % 10)
          (48 + n % 10)
        ≡ some n
  unfolding four_numbers two_numbers
  four_numbers-four_digits n h =
      ground (arith, digit (n / 1000), digit (n / 100), digit (n / 10), digit n)

  two_numbers_bound : (a b : ℕ) {n : ℕ} → two_numbers decimal a b ≡ some n → n < 100
  unfolding two_numbers
  two_numbers_bound a b {n} h = elim (Option-cases (decimal a)) [
    | inl bad ↦ ground arith
    | inr (x, e) ↦ elim (Option-cases (decimal b)) [
      | inl bad ↦ ground arith
      | inr (y, f) ↦ ground (arith, below_ten a x e, below_ten b y f)
    ]
  ]

  four_numbers_bound : (a b c d : ℕ) {n : ℕ} → four_numbers decimal a b c d ≡ some n → n < 10000
  unfolding four_numbers
  four_numbers_bound a b c d h = elim (Option-cases (two_numbers decimal a b)) [
    | inl bad ↦ ground arith
    | inr (x, e) ↦ elim (Option-cases (two_numbers decimal c d)) [
      | inl bad ↦ ground arith
      | inr (y, f) ↦
          ground (arith, two_numbers_bound a b {n = x} e, two_numbers_bound c d {n = y} f)
    ]
  ]

  match_date-format_date :
      (j : DateParts)
      → j.year < 10000
      → j.month < 100
      → j.day < 100
      → match_date decimal (format_date j) ≡ some (j, [])
  unfolding match_date format_date
  match_date-format_date j y m d = rw (
    four_numbers-four_digits j.year y,
    two_numbers-two_digits j.month m,
    two_numbers-two_digits j.day d,
  )

  match_date_bound :
      (s : Text) (j : DateParts) (rest : Text)
      → match_date decimal s ≡ some (j, rest)
      → j.year < 10000
  unfolding match_date
  match_date_bound (a ∷ b ∷ c ∷ d ∷ s ∷ e ∷ f ∷ t ∷ g ∷ h ∷ rest) j r m =
      elim (Option-cases (four_numbers decimal a b c d)) [
        | inl bad ↦ ground arith
        | inr (x, found) ↦ ground (arith, four_numbers_bound a b c d {n = x} found)
      ]
  match_date_bound _ j r m = cc

  parse_inv :
      (s : Text) (j : DateParts)
      → parse_jalali_date_parts decimal s ≡ some j
      → (match_date decimal s ≡ some (j, [])) × (checked_parts j ≡ some j)
  unfolding parse_jalali_date_parts
  parse_inv s j h = elim (Option-cases (match_date decimal s)) [
    | inl bad ↦ ground arith
    | inr ((k, []), e) ↦
        let checked : checked_parts k ≡ some j = ground arith in
        let same : j ≡ k = (checked_parts-Passes k j checked).4 in (cc, cc)
    | inr ((k, c ∷ rest), e) ↦ ground arith
  ]

  parse_matched :
      (s : Text) (j : DateParts)
      → match_date decimal s ≡ some (j, [])
      → checked_parts j ≡ some j
      → parse_jalali_date_parts decimal s ≡ some j
  unfolding parse_jalali_date_parts
  parse_matched s j m c = rw m c

  -- An accepted date is read back from its normal form.
  parse-format_date :
      (s : Text) (j : DateParts)
      → parse_jalali_date_parts decimal s ≡ some j
      → parse_jalali_date_parts decimal (format_date j) ≡ some j
  parse-format_date s j h =
      let (matched, checked) = parse_inv s j h in
      let (_, m, _, d, _, _, _, _) = checked_parts-Passes j j checked in
      parse_matched (format_date j) j
        (match_date-format_date j (match_date_bound s j [] matched) (omega arith) (omega arith))
        checked

  validate_inv :
      (s t : Text)
      → validate_jalali_date_string decimal s ≡ some t
      → (j : DateParts) × (parse_jalali_date_parts decimal (strip s) ≡ some j) × (format_date j ≡ t)
  unfolding validate_jalali_date_string
  validate_inv s t h = elim (Option-cases (parse_jalali_date_parts decimal (strip s))) [
    | inl bad ↦ ground arith
    | inr (j, e) ↦ (j, e, ground arith)
  ]

  validate_parsed :
      (s : Text) (j : DateParts)
      → parse_jalali_date_parts decimal (strip s) ≡ some j
      → validate_jalali_date_string decimal s ≡ some (format_date j)
  unfolding validate_jalali_date_string
  validate_parsed s j h = rw h

  to_gregorian_validated :
      (s t : Text)
      → validate_jalali_date_string decimal s ≡ some t
      → validate_jalali_date_string decimal t ≡ some t
      → jalali_date_string_to_gregorian_date decimal t
        ≡ jalali_date_string_to_gregorian_date decimal s
  unfolding jalali_date_string_to_gregorian_date
  to_gregorian_validated s t h k = rw (h, k)

  -- Where `int` reads the ASCII digits and no digit as more than nine: the text that the validation
  -- of a date gives back is accepted as it is and stands for the same Gregorian date.
  pub validate_jalali_date_string_canonical :
      (s t : Text)
      → validate_jalali_date_string decimal s ≡ some t
      → (validate_jalali_date_string decimal t ≡ some t)
        × (jalali_date_string_to_gregorian_date decimal t
            ≡ jalali_date_string_to_gregorian_date decimal s)
  validate_jalali_date_string_canonical s t h =
      let (j, parsed, e) = validate_inv s t h in
      let again : parse_jalali_date_parts decimal (strip t) ≡ some j =
        rw (← e, strip-format_date j) (parse-format_date (strip s) j parsed) in
      let fixed : validate_jalali_date_string decimal t ≡ some t =
        validate_parsed t j again ∙ ap some e in
      (fixed, to_gregorian_validated s t h fixed)
