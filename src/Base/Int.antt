-- ===== src/Base/Int.antt =====
-- The signed integers over the native numbers, with Python's `+` and `==`, and the finite floating
-- point numbers, which the program stores and never computes with.
use Prim.Native.Nat.{ℕ, suc, ◌+◌, ◌-◌}
use mathlib.Core.Path.{◌≡◌}
use mathlib.Core.Bool.{Bool, true, false}
use native.Mathlib.Omega.{arith}
use zaraamad_portal_be.Base.Tests.{leb, ◌==◌, if◌then◌else◌}

pub data ℤ : Type 0 where
  pos : ℕ → ℤ
  -- `negsuc n` is -(n + 1).
  negsuc : ℕ → ℤ

-- a - b
abbrev pub sub_ℕ : ℕ → ℕ → ℤ
sub_ℕ a b = if leb b a then pos (a - b) else negsuc (b - suc a)

infixl 60 ◌+ℤ◌
abbrev pub ◌+ℤ◌ : ℤ → ℤ → ℤ
pos a +ℤ pos b = pos (a + b)
pos a +ℤ negsuc b = sub_ℕ a (suc b)
negsuc a +ℤ pos b = sub_ℕ b (suc a)
negsuc a +ℤ negsuc b = negsuc (a + b + 1)

abbrev pub int_eq : ℤ → ℤ → Bool
int_eq (pos a) (pos b) = a == b
int_eq (negsuc a) (negsuc b) = a == b
int_eq _ _ = false

pub int_eq→eq : (a b : ℤ) → int_eq a b ≡ true → a ≡ b
int_eq→eq (pos a) (pos b) h = ground arith
int_eq→eq (pos a) (negsuc b) h = cc
int_eq→eq (negsuc a) (pos b) h = cc
int_eq→eq (negsuc a) (negsuc b) h = ground arith

-- A finite `float`: the mantissa times two to the exponent.
pub record Float : Type 0 where
  pub mantissa : ℤ
  pub exponent : ℤ
