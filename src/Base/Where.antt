-- ===== src/Base/Where.antt =====
-- Queries for a row by a condition.
use mathlib.Core.Path.{◌≡◌, refl}
use mathlib.Core.Bool.{Bool, true, false}
use mathlib.Core.Option.{Option, none, some}
use mathlib.Core.List.{List, [], ◌∷◌, ◌++◌}
use native.Mathlib.Omega.{arith}
use zaraamad_portal_be.Base.Tests.{if◌then◌else◌}

-- `select(Model).where(…)` of at most one row, and an assignment to the object that it finds.
module _ {A : Type 0} where
  abbrev pub find_where : (A → Bool) → List A → Option A
  find_where test [] = none
  find_where test (x ∷ xs) = if test x then some x else find_where test xs

  abbrev pub update_where : (A → Bool) → (A → A) → List A → List A
  update_where test f [] = []
  update_where test f (x ∷ xs) = if test x then f x ∷ xs else x ∷ update_where test f xs

  pub find_where-update_where :
      (test : A → Bool) (f : A → A) (xs : List A) {x : A}
      → ((y : A) → test (f y) ≡ test y)
      → find_where test xs ≡ some x
      → find_where test (update_where test f xs) ≡ some (f x)
  find_where-update_where test f [] same e = cc
  find_where-update_where test f (y ∷ ys) {x} same e =
      ground (arith, same y, find_where-update_where test f ys {x = x} same)

  -- Another query finds what it found, if the row that was assigned to is none of its rows.
  pub find_where-update_where_ne :
      (test other : A → Bool) (f : A → A) (xs : List A)
      → ((y : A) → test y ≡ true → (other y ≡ false) × (other (f y) ≡ false))
      → find_where other (update_where test f xs) ≡ find_where other xs
  find_where-update_where_ne test other f [] apart = refl
  find_where-update_where_ne test other f (y ∷ ys) apart =
      ground (arith, apart y, find_where-update_where_ne test other f ys apart)

  pub find_where_appended :
      (test : A → Bool) (x : A) (xs : List A)
      → find_where test xs ≡ none
      → test x ≡ true
      → find_where test (xs ++ x ∷ []) ≡ some x
  find_where_appended test x [] e t = ground arith
  find_where_appended test x (y ∷ ys) e t = ground (arith, find_where_appended test x ys)

  pub find_where_appended_ne :
      (test : A → Bool) (x : A) (xs : List A)
      → test x ≡ false
      → find_where test (xs ++ x ∷ []) ≡ find_where test xs
  find_where_appended_ne test x [] t = ground arith
  find_where_appended_ne test x (y ∷ ys) t = ground (arith, find_where_appended_ne test x ys)
