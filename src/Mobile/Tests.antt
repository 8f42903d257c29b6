-- ===== src/Mobile/Tests.antt =====
-- Runs of the mobile validator with the ASCII digits, and its theorem there.
use zaraamad_portal_be.Base.{ℕ, Bool, true, ◌&&◌, leb, none, some, ◌≡◌, refl, ◌⊎◌, arith, false}
use zaraamad_portal_be.Text.{codes, is_space, strip, remove}
use zaraamad_portal_be.Mobile.{normalize, digits}
use zaraamad_portal_be.Mobile.Normal.{is_mobile, is_cut, normalize-normalize}

abbrev ascii : ℕ → Bool
ascii c = leb 48 c && leb c 57

ascii-plain : (c : ℕ) → ascii c ≡ true → is_space c ≡ false
ascii-plain c h = ground arith

international : normalize ascii (codes " +98 912 123 4567") ≡ some (codes "09121234567")
unfolding normalize digits strip remove
international = refl

-- Ten digits that start with 98 pass the pattern without a prefix, and lose their first two digits.
cut_short : normalize ascii (codes "9812345678") ≡ some (codes "012345678")
unfolding normalize digits strip remove
cut_short = refl

refused_again : normalize ascii (codes "012345678") ≡ none
unfolding normalize digits strip remove
refused_again = refl

normalize-normalize_example :
    ((is_mobile ascii (codes "09121234567") ≡ true)
      × (normalize ascii (codes "09121234567") ≡ some (codes "09121234567")))
    ⊎ (is_cut ascii (codes "09121234567") ≡ true)
normalize-normalize_example =
    normalize-normalize ascii ascii-plain (codes " +98 912 123 4567") (codes "09121234567")
      international
