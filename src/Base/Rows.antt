-- ===== src/Base/Rows.antt =====
-- Tables as lists of rows: sums over the rows, deletions and insertions, an order by key, the rows
-- that a join makes, and Python's `set` of a list of keys.
use Prim.Native.Nat.{ℕ, ◌+◌, ◌≤◌, ◌<◌}
use mathlib.Core.Path.{◌≡◌, refl, sym, ap, ◌∙◌}
use mathlib.Core.Logic.{◌≢◌, inl, inr}
use mathlib.Core.Bool.{Bool, true, false, not, ◌&&◌, ◌||◌}
use mathlib.Core.Option.{Option, none, some}
use mathlib.Core.List.{List, [], ◌∷◌, ◌++◌, map, append-nil, Memᴰ, Permᴰ}
use mathlib.Core.List.Memᴰ
use native.Mathlib.Omega.{arith}
use zaraamad_portal_be.Base.Tests.{◌==◌, leb, if◌then◌else◌, Bool-cases, Option-cases}
use zaraamad_portal_be.Base.Lists.{length, keep, All, find_row, update_row}

-- `x in xs`
abbrev pub member : ℕ → List ℕ → Bool
member k [] = false
member k (x ∷ xs) = x == k || member k xs

-- `len(xs) == len(set(xs))`
abbrev pub all_distinct : List ℕ → Bool
all_distinct [] = true
all_distinct (x ∷ xs) = not (member x xs) && all_distinct xs

abbrev pub cons_some : {A : Type 0} → Option A → List A → List A
cons_some none ys = ys
cons_some (some y) ys = y ∷ ys

module _ {A B : Type 0} where
  -- The rows that a function makes of rows, where it makes one.
  abbrev pub filter_map : (A → Option B) → List A → List B
  filter_map f [] = []
  filter_map f (x ∷ xs) = cons_some (f x) (filter_map f xs)

  -- Every row that a join makes comes from a row that it is made of.
  pub find_row-filter_map :
      (f : A → Option B) (key : B → ℕ) (k : ℕ) (xs : List A) {y : B}
      → find_row key k (filter_map f xs) ≡ some y
      → (x : A) × (f x ≡ some y)
  find_row-filter_map f key k [] e = cc
  find_row-filter_map f key k (x ∷ xs) {y} e = elim (Option-cases (f x)) [
    | inl none_here ↦ find_row-filter_map f key k xs (rw none_here at e)
    | inr (z, here) ↦ elim (Bool-cases (key z == k)) [
      | inl hit ↦ (x, here ∙ rw (here, hit) at e)
      | inr miss ↦ find_row-filter_map f key k xs (rw (here, miss) at e)
    ]
  ]

module _ {A : Type 0} where
  -- The sum of a column.
  abbrev pub sum_of : (A → ℕ) → List A → ℕ
  sum_of f [] = 0
  sum_of f (x ∷ xs) = f x + sum_of f xs

  pub sum_of-append : (f : A → ℕ) (xs ys : List A) → sum_of f (xs ++ ys) ≡ sum_of f xs + sum_of f ys
  sum_of-append f [] ys = omega arith
  sum_of-append f (x ∷ xs) ys = omega (arith, sum_of-append f xs ys)

  pub keep-append : (p : A → Bool) (xs ys : List A) → keep p (xs ++ ys) ≡ keep p xs ++ keep p ys
  keep-append p [] ys = refl
  keep-append p (x ∷ xs) ys = ground (arith, keep-append p xs ys)

  -- The rows that a deletion leaves do not match what was deleted …
  pub keep_disjoint :
      (p q : A → Bool) (xs : List A)
      → ((x : A) → q x ≡ true → p x ≡ false)
      → keep p (keep q xs) ≡ []
  keep_disjoint p q [] h = refl
  keep_disjoint p q (x ∷ xs) h = ground (arith, h x, keep_disjoint p q xs h)

  -- … and the other rows stay.
  pub keep_within :
      (p q : A → Bool) (xs : List A)
      → ((x : A) → p x ≡ true → q x ≡ true)
      → keep p (keep q xs) ≡ keep p xs
  keep_within p q [] h = refl
  keep_within p q (x ∷ xs) h = ground (arith, h x, keep_within p q xs h)

  pub keep-All : (p : A → Bool) (xs : List A) → All (λ x. p x ≡ true) xs → keep p xs ≡ xs
  keep-All p [] h = refl
  keep-All p (x ∷ xs) h = ground (arith, keep-All p xs h.1)

  pub keep_none : (p : A → Bool) (xs : List A) → All (λ x. p x ≡ false) xs → keep p xs ≡ []
  keep_none p [] h = refl
  keep_none p (x ∷ xs) h = ground (arith, keep_none p xs h.1)

  -- A deletion of the rows that pass a condition and an insertion of such rows leaves those …
  pub keep_inserted :
      (p q : A → Bool) (xs ys : List A)
      → ((x : A) → q x ≡ true → p x ≡ false)
      → All (λ y. p y ≡ true) ys
      → keep p (keep q xs ++ ys) ≡ ys
  keep_inserted p q xs ys h k =
      rw (keep-append p (keep q xs) ys, keep_disjoint p q xs h, keep-All p ys k) refl

  -- … and does not touch the rows that pass another condition.
  pub keep_untouched :
      (p q : A → Bool) (xs ys : List A)
      → ((x : A) → p x ≡ true → q x ≡ true)
      → All (λ y. p y ≡ false) ys
      → keep p (keep q xs ++ ys) ≡ keep p xs
  keep_untouched p q xs ys h k =
      rw (keep-append p (keep q xs) ys, keep_within p q xs h, keep_none p ys k)
        (append-nil (keep p xs))

  -- `ORDER BY` a key, ascending.
  abbrev insert_by : (A → ℕ) → A → List A → List A
  insert_by key x [] = x ∷ []
  insert_by key x (y ∷ ys) = if leb (key x) (key y) then x ∷ y ∷ ys else y ∷ insert_by key x ys

  abbrev pub sort_by : (A → ℕ) → List A → List A
  sort_by key [] = []
  sort_by key (x ∷ xs) = insert_by key x (sort_by key xs)

  sum_of-insert_by :
      (f key : A → ℕ) (x : A) (xs : List A) → sum_of f (insert_by key x xs) ≡ f x + sum_of f xs
  sum_of-insert_by f key x [] = refl
  sum_of-insert_by f key x (y ∷ ys) = ground (arith, sum_of-insert_by f key x ys)

  pub sum_of-sort_by : (f key : A → ℕ) (xs : List A) → sum_of f (sort_by key xs) ≡ sum_of f xs
  sum_of-sort_by f key [] = refl
  sum_of-sort_by f key (x ∷ xs) =
      omega (arith, sum_of-insert_by f key x (sort_by key xs), sum_of-sort_by f key xs)

  -- The row with the key that was updated, and the rows with the other keys.
  pub find_row-update_row :
      (key : A → ℕ) (k : ℕ) (f : A → A) (xs : List A) {y : A}
      → ((x : A) → key (f x) ≡ key x)
      → find_row key k (update_row key k f xs) ≡ some y
      → (x : A) × (find_row key k xs ≡ some x) × (y ≡ f x)
  find_row-update_row key k f [] same e = cc
  find_row-update_row key k f (x ∷ xs) {y} same e = elim (Bool-cases (key x == k)) [
    | inl hit ↦ let here : f x ≡ y = ground (arith, same x) in (x, rw hit refl, sym here)
    | inr miss ↦
        let e' : find_row key k (update_row key k f xs) ≡ some y = ground arith in
        let (z, found, is) = find_row-update_row key k f xs same e' in (z, rw miss found, is)
  ]

  -- A deletion by a weaker condition leaves no fewer rows, and strictly more if it leaves a row that
  -- the other one does not leave.
  pub length-keep_le :
      (p q : A → Bool) (xs : List A)
      → ((x : A) → p x ≡ true → q x ≡ true)
      → length (keep p xs) ≤ length (keep q xs)
  length-keep_le p q [] h = omega arith
  length-keep_le p q (x ∷ xs) h = ground (arith, h x, length-keep_le p q xs h)

  pub length-keep_lt :
      (key : A → ℕ) (k : ℕ) (p q : A → Bool) (xs : List A) {x : A}
      → find_row key k xs ≡ some x
      → p x ≡ false
      → q x ≡ true
      → ((x : A) → p x ≡ true → q x ≡ true)
      → length (keep p xs) < length (keep q xs)
  length-keep_lt key k p q [] e i j h = cc
  length-keep_lt key k p q (z ∷ xs) {x} e i j h = elim (Bool-cases (key z == k)) [
    | inl hit ↦
        let same : z ≡ x = ground arith in
        let i' : p z ≡ false = ap p same ∙ i in
        let j' : q z ≡ true = ap q same ∙ j in rw (i', j') (ground (arith, length-keep_le p q xs h))
    | inr miss ↦
        let e' : find_row key k xs ≡ some x = rw miss at e in
        ground (arith, h z, length-keep_lt key k p q xs {x = x} e' i j h)
  ]

  pub length-keep_all : (p : A → Bool) (xs : List A) → length (keep p xs) ≤ length xs
  length-keep_all p [] = omega arith
  length-keep_all p (x ∷ xs) = ground (arith, length-keep_all p xs)

  -- Only the row with the key counts for what an update does.
  pub update_row_found :
      (key : A → ℕ) (k : ℕ) (f : A → A) (xs : List A) {x : A}
      → find_row key k xs ≡ some x
      → update_row key k f xs ≡ update_row key k (λ _. f x) xs
  update_row_found key k f [] e = refl
  update_row_found key k f (z ∷ xs) {x} e = elim (Bool-cases (key z == k)) [
    | inl hit ↦ let same : z ≡ x = ground arith in rw (hit, same) refl
    | inr miss ↦
        let e' : find_row key k xs ≡ some x = rw miss at e in
        rw (miss, update_row_found key k f xs e') refl
  ]

  -- The row that a changed table has at a key was there before, maybe with other columns.
  pub find_row_before :
      (key : A → ℕ) (j k : ℕ) (f : A → A) (xs : List A) {y : A}
      → ((x : A) → key (f x) ≡ key x)
      → find_row key j (update_row key k f xs) ≡ some y
      → (x : A) × (find_row key j xs ≡ some x)
  find_row_before key j k f [] same e = cc
  find_row_before key j k f (x ∷ xs) {y} same e = elim (Bool-cases (key x == j)) [
    | inl hit ↦ (x, rw hit refl)
    | inr miss ↦ elim (Bool-cases (key x == k)) [
      | inl at_k ↦
          let moved : (key (f x) == j) ≡ false = rw (same x) miss in
          (y, rw miss (rw (at_k, moved) at e))
      | inr not_at_k ↦
          let (z, found) = find_row_before key j k f xs same (rw (not_at_k, miss) at e) in
          (z, rw miss found)
    ]
  ]

  pub find_row_appended :
      (key : A → ℕ) (x : A) (xs : List A)
      → find_row key (key x) xs ≡ none
      → find_row key (key x) (xs ++ x ∷ []) ≡ some x
  find_row_appended key x [] e = ground arith
  find_row_appended key x (z ∷ xs) e = ground (arith, find_row_appended key x xs)

  pub find_row_last :
      (key : A → ℕ) (k : ℕ) (x : A) (xs : List A) {y : A}
      → find_row key k (xs ++ x ∷ []) ≡ some y
      → k ≢ key x
      → find_row key k xs ≡ some y
  find_row_last key k x [] e ne = ground arith
  find_row_last key k x (z ∷ xs) {y} e ne = ground (arith, find_row_last key k x xs {y = y})

pub sum_of-map :
    {A B : Type 0} (g : A → B) (f : B → ℕ) (xs : List A)
    → sum_of f (map g xs) ≡ sum_of (λ x. f (g x)) xs
sum_of-map g f [] = refl
sum_of-map g f (x ∷ xs) = ap (λ n. f (g x) + n) (sum_of-map g f xs)

-- What holds of every row that a function makes of a row holds of every row it makes.
pub All-filter_map :
    {A B : Type 0} (P : B → Type 0) (f : A → Option B) (xs : List A)
    → ((x : A) → Memᴰ x xs → (y : B) → f x ≡ some y → P y)
    → All P (filter_map f xs)
All-filter_map P f [] h = tt
All-filter_map P f (x ∷ xs) h = elim (Option-cases (f x)) [
  | inl none_here ↦ rw none_here (All-filter_map P f xs (λ z m. h z (Memᴰ.tail m)))
  | inr (y, here) ↦
      rw here (h x (Memᴰ.head refl) y here, All-filter_map P f xs (λ z m. h z (Memᴰ.tail m)))
]

-- A row that a condition lets through is in the table and passes the condition.
pub Memᴰ-keep :
    {A : Type 0} (p : A → Bool) (x : A) (xs : List A)
    → Memᴰ x (keep p xs)
    → Memᴰ x xs × (p x ≡ true)
Memᴰ-keep p x [] m = absurd (Memᴰ.not-nil m)
Memᴰ-keep p x (y ∷ ys) m = elim (Bool-cases (p y)) [
  | inl yes_here ↦ elim (rw yes_here at m) [
    | Memᴰ.head e ↦ (Memᴰ.head e, ap p e ∙ yes_here)
    | Memᴰ.tail n ↦ let (i, h) = Memᴰ-keep p x ys n in (Memᴰ.tail i, h)
  ]
  | inr no_here ↦ let (n, h) = Memᴰ-keep p x ys (rw no_here at m) in (Memᴰ.tail n, h)
]

-- A sum does not depend on the order of the rows.
pub sum_of-Permᴰ :
    {A : Type 0} (f : A → ℕ) {xs ys : List A} → Permᴰ xs ys → sum_of f xs ≡ sum_of f ys
sum_of-Permᴰ f Permᴰ.nil = refl
sum_of-Permᴰ f (Permᴰ.cons e p) = omega (arith, ap f e, sum_of-Permᴰ f p)
sum_of-Permᴰ f (Permᴰ.swap e g) = omega (arith, ap f e, ap f g)
sum_of-Permᴰ f (Permᴰ.trans p q) = sum_of-Permᴰ f p ∙ sum_of-Permᴰ f q
