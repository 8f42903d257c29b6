-- ===== src/Pagination/Cover.antt =====
-- The pages of a query show all its rows, in order and each once.
use zaraamad_portal_be.Base.{
  ℕ, zero, suc, ◌+◌, ◌-◌, ◌*◌, ◌≤◌, ◌<◌, ◌≡◌, refl, ◌∙◌, ap, Option, none, some, List, [], ◌∷◌,
  ◌++◌, arith, take, drop, length, length-take,
}
use zaraamad_portal_be.Pagination.{
  PaginationParams, offset, total_pages, get_pagination_params, page_of, max_page_size,
}

-- Pages 1 to `n` of `rows`, one after the other.
abbrev pub first_pages {ℓ} : {A : Type ℓ} → ℕ → ℕ → List A → List A
first_pages size zero rows = []
first_pages size (suc n) rows =
    first_pages size n rows ++ page_of (record { page = suc n; page_size = size }) rows

zero_plus : (n : ℕ) → 0 + n ≡ n
zero_plus n = omega arith

suc_plus : (m n : ℕ) → suc m + n ≡ suc (m + n)
suc_plus m n = omega arith

zero_times : (n : ℕ) → 0 ≡ 0 * n
zero_times n = omega arith

pred_suc : (n : ℕ) → suc n - 1 ≡ n
pred_suc n = omega arith

suc_times : (n m : ℕ) → n * m + m ≡ suc n * m
suc_times n m = omega arith

take_nil {ℓ} : {A : Type ℓ} (n : ℕ) → [] ++ take {A = A} n [] ≡ []
take_nil zero = refl
take_nil (suc n) = refl

take-add {ℓ} :
    {A : Type ℓ} (m n : ℕ) (xs : List A) → take m xs ++ take n (drop m xs) ≡ take (m + n) xs
take-add zero n xs = rw (zero_plus n)
take-add (suc m) n [] = rw (suc_plus m n) (take_nil n)
take-add (suc m) n (x ∷ xs) = rw (suc_plus m n) (ap (λ t. x ∷ t) (take-add m n xs))

first_pages-take {ℓ} :
    {A : Type ℓ} (size n : ℕ) (rows : List A) → first_pages size n rows ≡ take (n * size) rows
unfolding page_of
first_pages-take size zero rows = ap (λ (k : ℕ). take k rows) (zero_times size)
first_pages-take size (suc n) rows =
    rw (first_pages-take size n rows, pred_suc n)
      (take-add (n * size) size rows ∙ ap (λ (k : ℕ). take k rows) (suc_times n size))

take_all {ℓ} : {A : Type ℓ} (n : ℕ) (xs : List A) → length xs ≤ n → take n xs ≡ xs
take_all zero [] h = refl
take_all zero (x ∷ xs) h = absurd (omega arith)
take_all (suc n) [] h = refl
take_all (suc n) (x ∷ xs) h = ap (λ t. x ∷ t) (take_all n xs (omega arith))

pages_suffice :
    (total size page : ℕ)
    → 0 < size
    → total ≤ total_pages (record { total_count = total; page = page; page_size = size }) * size
unfolding total_pages
pages_suffice total size page h = grind arith

drop_all {ℓ} : {A : Type ℓ} (n : ℕ) (xs : List A) → length xs ≤ n → drop n xs ≡ []
drop_all zero [] h = refl
drop_all zero (x ∷ xs) h = absurd (omega arith)
drop_all (suc n) [] h = refl
drop_all (suc n) (x ∷ xs) h = drop_all n xs (omega arith)

-- For a positive page size, pages 1 to `total_pages` give back the rows of the query, in order, none left out or repeated.
pub pages_cover {ℓ} :
    {A : Type ℓ} (size page : ℕ) (rows : List A)
    → 0 < size
    → first_pages size
        (total_pages (record { total_count = length rows; page = page; page_size = size }))
        rows
      ≡ rows
pages_cover size page rows h =
    first_pages-take size _ rows ∙ take_all _ rows (pages_suffice (length rows) size page h)

accepted_bound :
    (page page_size : Option ℕ) (p : PaginationParams)
    → get_pagination_params page page_size ≡ some p
    → p.page_size ≤ max_page_size
unfolding get_pagination_params
accepted_bound none none p h = ground arith
accepted_bound none (some n) p h = ground arith
accepted_bound (some m) none p h = ground arith
accepted_bound (some m) (some n) p h = ground arith

-- For accepted parameters a page holds at most `max_page_size` rows.
pub page_bound {ℓ} :
    {A : Type ℓ} (page page_size : Option ℕ) (p : PaginationParams) (rows : List A)
    → get_pagination_params page page_size ≡ some p
    → length (page_of p rows) ≤ max_page_size
unfolding get_pagination_params page_of
page_bound page page_size p rows h =
    omega (arith, length-take p.page_size (drop (offset p) rows), accepted_bound page page_size p h)

offset_past : (n pages page size : ℕ) → n ≤ pages * size → pages < page → n ≤ (page - 1) * size
offset_past n pages page size h lt = grind arith

take_of_nil {ℓ} : {A : Type ℓ} (n : ℕ) → take {A = A} n [] ≡ []
take_of_nil zero = refl
take_of_nil (suc n) = refl

-- For a positive page size, no page behind the last one holds a row.
pub past_last_page {ℓ} :
    {A : Type ℓ} (size page : ℕ) (rows : List A)
    → 0 < size
    → total_pages (record { total_count = length rows; page = page; page_size = size }) < page
    → page_of (record { page = page; page_size = size }) rows ≡ []
unfolding page_of
past_last_page size page rows h lt =
    rw
      (drop_all ((page - 1) * size) rows
        (offset_past (length rows) _ page size (pages_suffice (length rows) size page h) lt))
      (take_of_nil size)
