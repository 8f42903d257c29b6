-- ===== src/Base/Lists.antt =====
-- Lists measured by native numbers, predicates that hold of every element, and the rows of a
-- table that a key selects.
use Prim.Native.Nat.{ℕ, zero, suc, ◌+◌, ◌-◌, ◌≤◌, min}
use mathlib.Core.Path.{◌≡◌, refl, sym, ap, subst, ◌∙◌}
use mathlib.Core.Logic.{◌≢◌, inl, inr}
use mathlib.Core.Bool.{Bool, true, false}
use mathlib.Core.Option.{Option, none, some}
use mathlib.Core.List.{List, [], ◌∷◌, ◌++◌, map}
use native.Mathlib.Omega.{arith}
use zaraamad_portal_be.Base.Tests.{◌==◌, if◌then◌else◌, Bool-cases}

module _ {ℓ} {A : Type ℓ} where
  abbrev pub length : List A → ℕ
  length [] = 0
  length (x ∷ xs) = suc (length xs)

  abbrev pub take : ℕ → List A → List A
  take zero xs = []
  take (suc n) [] = []
  take (suc n) (x ∷ xs) = x ∷ take n xs

  abbrev pub drop : ℕ → List A → List A
  drop zero xs = xs
  drop (suc n) [] = []
  drop (suc n) (x ∷ xs) = drop n xs

  pub length-take : (n : ℕ) (xs : List A) → length (take n xs) ≡ min n (length xs)
  length-take zero xs = omega arith
  length-take (suc n) [] = omega arith
  length-take (suc n) (x ∷ xs) = omega (arith, length-take n xs)

  pub length-drop : (n : ℕ) (xs : List A) → length (drop n xs) ≡ length xs - n
  length-drop zero xs = omega arith
  length-drop (suc n) [] = omega arith
  length-drop (suc n) (x ∷ xs) = omega (arith, length-drop n xs)

  -- The rows that a Boolean condition lets through.
  abbrev pub keep : (A → Bool) → List A → List A
  keep p [] = []
  keep p (x ∷ xs) = if p x then x ∷ keep p xs else keep p xs

  abbrev pub All {κ} : (A → Type κ) → List A → Type κ
  All P [] = Unit
  All P (x ∷ xs) = P x × All P xs

  pub All-mono {κ μ} :
      (P : A → Type κ) (Q : A → Type μ) (xs : List A) → ((x : A) → P x → Q x) → All P xs → All Q xs
  All-mono P Q [] f h = tt
  All-mono P Q (x ∷ xs) f h = (f x h.0, All-mono P Q xs f h.1)

  pub All-take {κ} : (P : A → Type κ) (n : ℕ) (xs : List A) → All P xs → All P (take n xs)
  All-take P zero xs h = tt
  All-take P (suc n) [] h = tt
  All-take P (suc n) (x ∷ xs) h = (h.0, All-take P n xs h.1)

  pub All-drop {κ} : (P : A → Type κ) (n : ℕ) (xs : List A) → All P xs → All P (drop n xs)
  All-drop P zero xs h = h
  All-drop P (suc n) [] h = tt
  All-drop P (suc n) (x ∷ xs) h = All-drop P n xs h.1

  nil_of_length : (xs : List A) → length xs ≡ 0 → xs ≡ []
  nil_of_length [] h = refl
  nil_of_length (x ∷ xs) h = absurd (omega arith)

  -- How many rows pass a condition.
  abbrev pub count : (A → Bool) → List A → ℕ
  count p xs = length (keep p xs)

  -- The same rows, each as often, in whatever order.
  abbrev pub SameRows : List A → List A → Type ℓ
  SameRows xs ys = (p : A → Bool) → count p xs ≡ count p ys

  count-le-length : (p : A → Bool) (xs : List A) → count p xs ≤ length xs
  count-le-length p [] = omega arith
  count-le-length p (x ∷ xs) = ground (arith, count-le-length p xs)

  All-of_count : (p : A → Bool) (xs : List A) → count p xs ≡ length xs → All (λ x. p x ≡ true) xs
  All-of_count p [] h = tt
  All-of_count p (x ∷ xs) h = ground (arith, count-le-length p xs, All-of_count p xs)

  count_of_All : (p : A → Bool) (xs : List A) → All (λ x. p x ≡ true) xs → count p xs ≡ length xs
  count_of_All p [] h = refl
  count_of_All p (x ∷ xs) h = ground (arith, count_of_All p xs h.1)

  count-true : (xs : List A) → count (λ _. true) xs ≡ length xs
  count-true [] = refl
  count-true (x ∷ xs) = ap suc (count-true xs)

  -- Ordering the rows neither adds nor drops any.
  pub length-SameRows : (xs ys : List A) → SameRows xs ys → length xs ≡ length ys
  length-SameRows xs ys h = sym (count-true xs) ∙ h (λ _. true) ∙ count-true ys

  pub All-SameRows :
      (p : A → Bool) (xs ys : List A)
      → SameRows xs ys
      → All (λ x. p x ≡ true) ys
      → All (λ x. p x ≡ true) xs
  All-SameRows p xs ys h k =
      All-of_count p xs (h p ∙ count_of_All p ys k ∙ sym (length-SameRows xs ys h))

  pub count-append : (p : A → Bool) (xs ys : List A) → count p (xs ++ ys) ≡ count p xs + count p ys
  count-append p [] ys = omega arith
  count-append p (x ∷ xs) ys = ground (arith, count-append p xs ys)

  pub keep_nil : (p : A → Bool) (xs : List A) → count p xs ≡ 0 → keep p xs ≡ []
  keep_nil p xs h = nil_of_length (keep p xs) h

  pub SameRows-nil : (xs : List A) → SameRows xs [] → xs ≡ []
  SameRows-nil xs h = nil_of_length xs (length-SameRows xs [] h)

  -- Every row that is kept passes the condition.
  pub All-keep : (p : A → Bool) (xs : List A) → All (λ x. p x ≡ true) (keep p xs)
  All-keep p [] = tt
  All-keep p (x ∷ xs) = ground (arith, All-keep p xs)

-- The rows of a table. `key` reads the primary key of a row.
module _ {A : Type 0} (key : A → ℕ) where
  count-step :
      (p : A → Bool) (y : A) (us ys : List A)
      → count p us + 1 ≡ count p ys
      → count p (y ∷ us) + 1 ≡ count p (y ∷ ys)
  count-step p y us ys h = ground arith

  -- `session.get(Model, id)`: the row with the primary key, if there is one.
  abbrev pub find_row : ℕ → List A → Option A
  find_row k [] = none
  find_row k (x ∷ xs) = if key x == k then some x else find_row k xs

  -- Attribute assignments to the object of the row with the primary key.
  abbrev pub update_row : ℕ → (A → A) → List A → List A
  update_row k f [] = []
  update_row k f (x ∷ xs) = if key x == k then f x ∷ xs else x ∷ update_row k f xs

  pub find_row-update_row_self :
      (k : ℕ) (f : A → A) {x : A} (xs : List A)
      → ((y : A) → key (f y) ≡ key y)
      → find_row k xs ≡ some x
      → find_row k (update_row k f xs) ≡ some (f x)
  find_row-update_row_self k f [] same e = cc
  find_row-update_row_self k f {x} (y ∷ ys) same e =
      ground (arith, same y, find_row-update_row_self k f {x = x} ys same)

  pub find_row-update_row_ne :
      (j k : ℕ) (f : A → A) (xs : List A)
      → ((y : A) → key (f y) ≡ key y)
      → j ≢ k
      → find_row j (update_row k f xs) ≡ find_row j xs
  find_row-update_row_ne j k f [] same ne = refl
  find_row-update_row_ne j k f (y ∷ ys) same ne =
      ground (arith, same y, find_row-update_row_ne j k f ys same ne)

  pub key-find_row : (k : ℕ) {x : A} (xs : List A) → find_row k xs ≡ some x → key x ≡ k
  key-find_row k [] e = cc
  key-find_row k {x} (y ∷ ys) e = ground (arith, key-find_row k {x = x} ys)

  -- Assignments leave the keys of the table alone.
  pub map-update_row :
      (k : ℕ) (f : A → A) (xs : List A)
      → ((y : A) → key (f y) ≡ key y)
      → map key (update_row k f xs) ≡ map key xs
  map-update_row k f [] same = refl
  map-update_row k f (y ∷ ys) same = ground (arith, same y, map-update_row k f ys same)

  -- A row that passed a condition and does not any more is one less that passes it.
  pub count-update_row :
      (p : A → Bool) (k : ℕ) (f : A → A) {x : A} (xs : List A)
      → find_row k xs ≡ some x
      → p x ≡ true
      → p (f x) ≡ false
      → count p (update_row k f xs) + 1 ≡ count p xs
  count-update_row p k f [] e h g = cc
  count-update_row p k f {x} (y ∷ ys) e h g = elim (Bool-cases (key y == k)) [
    | inl hit ↦
        let same : y ≡ x = ground arith in
        let was : p y ≡ true = ap p same ∙ h in
        let is : p (f y) ≡ false = ap (λ z. p (f z)) same ∙ g in rw (hit, was, is) (omega arith)
    | inr miss ↦
        let e' : find_row k ys ≡ some x = rw miss at e in
        rw miss (count-step p y (update_row k f ys) ys (count-update_row p k f ys e' h g))
  ]

  head_found :
      (k : ℕ) (y : A) (ys : List A) (x : A)
      → (key y == k) ≡ true
      → find_row k (y ∷ ys) ≡ some x
      → y ≡ x
  head_found k y ys x hit e = ground arith

  module _ {κ} (P : A → Type κ) where
    pub All-find_row : (k : ℕ) {x : A} (xs : List A) → All P xs → find_row k xs ≡ some x → P x
    All-find_row k [] h e = cc
    All-find_row k {x} (y ∷ ys) h e = elim (Bool-cases (key y == k)) [
      | inl hit ↦ subst P (head_found k y ys x hit e) h.0
      | inr miss ↦ All-find_row k ys h.1 (rw miss at e)
    ]

    pub All-update_row :
        (k : ℕ) (f : A → A) {x : A} (xs : List A)
        → All P xs
        → find_row k xs ≡ some x
        → P (f x)
        → All P (update_row k f xs)
    All-update_row k f [] h e p = tt
    All-update_row k f {x} (y ∷ ys) h e p = elim (Bool-cases (key y == k)) [
      | inl hit ↦ rw hit (subst (λ z. P (f z)) (sym (head_found k y ys x hit e)) p, h.1)
      | inr miss ↦ rw miss (h.0, All-update_row k f ys h.1 (rw miss at e) p)
    ]
