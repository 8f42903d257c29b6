-- ===== src/Text.antt =====
-- Python strings as lists of code points, with the methods of `str` that the program calls.
use Prim.Native.Char.{code}
use zaraamad_portal_be.Base.{
  ℕ, ◌+◌, String, List, [], ◌∷◌, ◌≡◌, refl, Bool, true, false, Option, none, some, ◌||◌, ◌&&◌,
  arith, ◌==◌, leb, if◌then◌else◌, All,
}

abbrev pub Text : Type 0
Text = List ℕ

abbrev pub codes : String → Text
codes String.[] = []
codes (String.◌∷◌ c s) = code c ∷ codes s

-- `a == b`
abbrev pub text_eq : Text → Text → Bool
text_eq [] [] = true
text_eq [] (_ ∷ _) = false
text_eq (_ ∷ _) [] = false
text_eq (a ∷ s) (b ∷ t) = (a == b) && text_eq s t

-- `bool(s)`
abbrev pub is_empty : Text → Bool
is_empty [] = true
is_empty (_ ∷ _) = false

-- `str.isspace` of one character.
abbrev pub is_space : ℕ → Bool
is_space c =
    (leb 9 c && leb c 13)
    || (leb 28 c && leb c 32)
    || c == 133
    || c == 160
    || c == 5760
    || (leb 8192 c && leb c 8202)
    || c == 8232
    || c == 8233
    || c == 8239
    || c == 8287
    || c == 12288

-- `s.lstrip()`
unfoldable pub lstrip : Text → Text
lstrip [] = []
lstrip (c ∷ s) = if is_space c then lstrip s else c ∷ s

-- `s.rstrip()`: a character stays if it is no space or if something stays behind it.
unfoldable pub rstrip : Text → Text
rstrip [] = []
rstrip (c ∷ s) = let rest = rstrip s in if is_empty rest && is_space c then [] else c ∷ rest

-- `s.strip()`
unfoldable pub strip : Text → Text
unfolding lstrip rstrip
strip s = rstrip (lstrip s)

-- `s.replace(chr(c), "")`
unfoldable pub remove : ℕ → Text → Text
remove c [] = []
remove c (x ∷ s) = if x == c then remove c s else x ∷ remove c s

-- `s.startswith(p)` with `s[len(p):]`: what follows the prefix.
unfoldable pub after_prefix : Text → Text → Option Text
after_prefix [] s = some s
after_prefix (_ ∷ _) [] = none
after_prefix (a ∷ p) (b ∷ s) = if a == b then after_prefix p s else none

-- `p in s`
unfoldable pub contains : Text → Text → Bool
contains p [] = is_empty p
contains p (c ∷ s) = elim (after_prefix p (c ∷ s)) [ some _ ↦ true | none ↦ contains p s ]

-- `s.lower()`. The texts that the program looks for are made of ASCII letters other than k, to
-- which no other letter of Unicode is lowered.
unfoldable pub lower : Text → Text
lower [] = []
lower (c ∷ s) = (if leb 65 c && leb c 90 then c + 32 else c) ∷ lower s

pub text_eq_refl : (s : Text) → text_eq s s ≡ true
text_eq_refl [] = refl
text_eq_refl (c ∷ s) = ground (arith, text_eq_refl s)

pub text_eq→eq : (s t : Text) → text_eq s t ≡ true → s ≡ t
text_eq→eq [] [] h = refl
text_eq→eq [] (b ∷ t) h = cc
text_eq→eq (a ∷ s) [] h = cc
text_eq→eq (a ∷ s) (b ∷ t) h = ground (arith, text_eq→eq s t)

lstrip_lem : (s : Text) → All (λ c. is_space c ≡ false) s → lstrip s ≡ s
unfolding lstrip
lstrip_lem [] h = refl
lstrip_lem (c ∷ s) h = rw h.0

rstrip_lem : (s : Text) → All (λ c. is_space c ≡ false) s → rstrip s ≡ s
unfolding rstrip
rstrip_lem [] h = refl
rstrip_lem (c ∷ s) h = ground (arith, rstrip_lem s h.1)

-- A text with no space in it is stripped already.
pub strip_lem : (s : Text) → All (λ c. is_space c ≡ false) s → strip s ≡ s
unfolding strip
strip_lem s h = rw (lstrip_lem s h) (rstrip_lem s h)
