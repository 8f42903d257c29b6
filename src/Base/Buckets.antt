-- ===== src/Base/Buckets.antt =====
-- The buckets that a loop over rows fills, and their columns.
use Prim.Native.Nat.{ℕ, ◌+◌}
use mathlib.Core.Path.{◌≡◌}
use mathlib.Core.Option.{some}
use mathlib.Core.Logic.{inl, inr}
use mathlib.Core.Bool.{Bool}
use mathlib.Core.List.{List, [], ◌∷◌}
use native.Mathlib.Omega.{arith}
use zaraamad_portal_be.Base.Tests.{◌==◌, if◌then◌else◌, Bool-cases}
use zaraamad_portal_be.Base.Lists.{All, find_row}
use zaraamad_portal_be.Base.Rows.{sum_of}

-- A bucket by key: the row that the test recognises is changed, or a new one is appended.
module _ {A : Type 0} (here : A → Bool) (new : A) (f : A → A) where
  abbrev pub upsert : List A → List A
  upsert [] = f new ∷ []
  upsert (x ∷ xs) = if here x then f x ∷ xs else x ∷ upsert xs

  -- A column that the change raises by an amount, and that starts at 0, grows by it in total.
  pub sum_of-upsert :
      (column : A → ℕ) (n : ℕ) (xs : List A)
      → ((x : A) → column (f x) ≡ column x + n)
      → column new ≡ 0
      → sum_of column (upsert xs) ≡ sum_of column xs + n
  sum_of-upsert column n [] h z = omega (arith, h new, z)
  sum_of-upsert column n (x ∷ xs) h z = ground (arith, h x, sum_of-upsert column n xs h z)

  pub All-upsert :
      (P : A → Type 0) (xs : List A)
      → ((x : A) → P x → P (f x))
      → P new
      → All P xs
      → All P (upsert xs)
  All-upsert P [] h p all = (h new p, tt)
  All-upsert P (x ∷ xs) h p all = elim (Bool-cases (here x)) [
    | inl hit ↦ rw hit (h x all.0, all.1)
    | inr miss ↦ rw miss (all.0, All-upsert P xs h p all.1)
  ]

-- The table as a map by key: only the entry of the bucket changes, to the row that is saved.
pub find_row-upsert :
    {A : Type 0} (key : A → ℕ) (j : ℕ) (new saved : A) (f : A → A) (k : ℕ) (xs : List A)
    → ((x : A) → key x ≡ j → f x ≡ saved)
    → key new ≡ j
    → key saved ≡ j
    → find_row key k (upsert (λ x. key x == j) new f xs)
      ≡ (if j == k then some saved else find_row key k xs)
find_row-upsert key j new saved f k [] h n s = ground (arith, h new n)
find_row-upsert key j new saved f k (x ∷ xs) h n s = elim (Bool-cases (key x == j)) [
  | inl hit ↦ ground (arith, h x)
  | inr miss ↦ ground (arith, find_row-upsert key j new saved f k xs h n s)
]
