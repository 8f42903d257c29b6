-- ===== src/Mobile.antt =====
-- app/common/validators/mobile_validator.py. Which characters `\d` matches is a parameter.
pub mod Normal
mod Tests
use zaraamad_portal_be.Base.{
  ℕ, zero, suc, Bool, true, false, not, ◌&&◌, ◌||◌, Option, none, some, [], ◌∷◌, ◌==◌,
  if◌then◌else◌,
}
use zaraamad_portal_be.Text.{Text, codes, strip, remove, after_prefix}

-- `$`: the end, or the newline in front of it.
unfoldable pub at_end : Text → Bool
at_end [] = true
at_end (c ∷ []) = c == 10
at_end (c ∷ d ∷ s) = false

-- The rewriting of a number that matches.
unfoldable pub rewritten : Text → Text
unfolding after_prefix
rewritten s = elim (after_prefix (codes "+98") s) [
  | some rest ↦ b'0' ∷ rest
  | none ↦ elim (after_prefix (codes "98") s) [
    | some rest ↦ b'0' ∷ rest
    | none ↦ elim (after_prefix (codes "9") s) [ some rest ↦ b'0' ∷ s | none ↦ s ]
  ]
]

module _ (is_decimal : ℕ → Bool) where
  -- `\d{n}$`
  unfoldable pub digits : ℕ → Text → Bool
  unfolding at_end
  digits zero s = at_end s
  digits (suc n) [] = false
  digits (suc n) (c ∷ s) = is_decimal c && digits n s

  -- `9\d{9}$`
  unfoldable pub subscriber : Text → Bool
  subscriber [] = false
  subscriber (c ∷ s) = c == b'9' && digits 9 s

  unfoldable pub behind : Text → Text → Bool
  unfolding after_prefix subscriber
  behind p s = elim (after_prefix p s) [ none ↦ false | some rest ↦ subscriber rest ]

  -- `_MOBILE_PATTERN.match`: one of the prefixes, or none.
  unfoldable pub matches : Text → Bool
  unfolding behind
  matches s =
      behind (codes "+98") s || (behind (codes "98") s || (behind (codes "0") s || subscriber s))

  -- `none` is the `ValueError`.
  unfoldable pub normalize : Text → Option Text
  unfolding matches rewritten
  normalize value =
      let normalized = remove 32 (strip value) in
      if not (matches normalized) then none else some (rewritten normalized)
