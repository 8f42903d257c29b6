-- ===== src/Base/Tests.antt =====
-- Boolean tests on the native numbers, the conditional, and case splits that keep the equation.
use Prim.Native.Nat.{ℕ, ◌≤◌, ◌<◌, compare, Ordering}
use mathlib.Core.Path.{◌≡◌, refl}
use mathlib.Core.Logic.{◌↔◌, ◌⊎◌, inl, inr}
use mathlib.Core.Bool.{Bool, true, false}
use mathlib.Core.Option.{Option, none, some}
use native.Mathlib.Omega.{arith}

abbrev pub ltb : ℕ → ℕ → Bool
ltb a b = elim (compare a b) [ Ordering.lt ↦ true | _ ↦ false ]

abbrev pub leb : ℕ → ℕ → Bool
leb a b = elim (compare a b) [ Ordering.gt ↦ false | _ ↦ true ]

infix 50 ◌==◌
abbrev pub ◌==◌ : ℕ → ℕ → Bool
a == b = elim (compare a b) [ Ordering.eq ↦ true | _ ↦ false ]

infix 1 if◌then◌else◌
abbrev pub if◌then◌else◌ {ℓ} : {A : Type ℓ} → Bool → A → A → A
if true then x else y = x
if false then x else y = y

pub ltb→lt : (a b : ℕ) → ltb a b ≡ true → a < b
ltb→lt a b h = ground arith

pub leb→le : (a b : ℕ) → leb a b ≡ true → a ≤ b
leb→le a b h = ground arith

pub le→leb : (a b : ℕ) → a ≤ b → leb a b ≡ true
le→leb a b h = ground arith

pub ==_iff : (a b : ℕ) → ((a == b) ≡ true) ↔ (a ≡ b)
==_iff a b = ground arith

pub Bool-cases : (b : Bool) → (b ≡ true) ⊎ (b ≡ false)
Bool-cases true = inl refl
Bool-cases false = inr refl

pub Option-cases {ℓ} : {A : Type ℓ} (o : Option A) → (o ≡ none) ⊎ ((a : A) × (o ≡ some a))
Option-cases none = inl refl
Option-cases (some a) = inr (a, refl)

-- `x is not None`
abbrev pub is_some {ℓ} : {A : Type ℓ} → Option A → Bool
is_some none = false
is_some (some _) = true

-- `x == y` on an optional number.
abbrev pub eq_some : Option ℕ → ℕ → Bool
eq_some none n = false
eq_some (some m) n = m == n

-- A field of an update: what the request sets it to, or what it was.
abbrev pub set_or_keep : {A : Type 0} → Option A → A → A
set_or_keep none old = old
set_or_keep (some new) old = new

-- `if filter is not None: query = query.where(test)`
abbrev pub where_some : {A : Type 0} → Option A → (A → Bool) → Bool
where_some none test = true
where_some (some a) test = test a

-- The row that a query by key finds, if it passes the query's condition.
abbrev pub provided : {A : Type 0} → (A → Bool) → Option A → Option A
provided test none = none
provided test (some a) = if test a then some a else none

pub provided-some :
    {A : Type 0} (test : A → Bool) (o : Option A) {a : A}
    → provided test o ≡ some a
    → (o ≡ some a) × (test a ≡ true)
provided-some test none e = cc
provided-some test (some b) e = ground arith
