-- ===== src/Pagination.antt =====
-- app/common/pagination.py, and the page that `query.offset(…).limit(…)` cuts out of the rows of a
-- query.
pub mod Cover
mod Tests
use zaraamad_portal_be.Base.{
  ℕ, suc, ◌+◌, ◌-◌, ◌*◌, ◌/◌, Bool, ◌&&◌, Option, none, some, List, ◌==◌, leb, if◌then◌else◌, take,
  drop, length, keep,
}

abbrev pub default_page : ℕ
default_page = 1

abbrev pub default_page_size : ℕ
default_page_size = 20

abbrev pub max_page_size : ℕ
max_page_size = 100

pub record PaginationParams : Type 0 where
  pub page : ℕ
  pub page_size : ℕ

-- The offset is a number only for a page from 1 on, which `get_pagination_params` ensures.
unfoldable pub offset : PaginationParams → ℕ
offset p = (p.page - 1) * p.page_size

pub record PaginationMeta : Type 0 where
  pub total_count : ℕ
  pub page : ℕ
  pub page_size : ℕ

-- `ceil(total_count / page_size)`, exact as long as the counts are far below 2^53.
unfoldable pub total_pages : PaginationMeta → ℕ
total_pages m = if m.total_count == 0 then 0 else (m.total_count + m.page_size - 1) / m.page_size

abbrev value_or : ℕ → Option ℕ → ℕ
value_or d none = d
value_or d (some n) = n

-- The checks `ge=1` and `le=MAX_PAGE_SIZE` of the query parameters; `none` is a refused request.
unfoldable pub get_pagination_params : Option ℕ → Option ℕ → Option PaginationParams
get_pagination_params page page_size =
    let p = value_or default_page page in
    let n = value_or default_page_size page_size in
    if leb 1 p && (leb 1 n && leb n max_page_size)
    then some (record { page = p; page_size = n })
    else none

-- `list(scalars(query.offset(p.offset).limit(p.page_size)))` on the rows of the query.
unfoldable pub page_of {ℓ} : {A : Type ℓ} → PaginationParams → List A → List A
unfolding offset
page_of p rows = take p.page_size (drop (offset p) rows)
