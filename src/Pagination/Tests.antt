-- ===== src/Pagination/Tests.antt =====
-- The pages of a query at small inputs.
use zaraamad_portal_be.Base.{ℕ, ◌≡◌, refl, List, [], ◌∷◌, none, some, arith, length}
use zaraamad_portal_be.Pagination.{total_pages, get_pagination_params, page_of}
use zaraamad_portal_be.Pagination.Cover.{first_pages, pages_cover}

abbrev rows : List ℕ
rows = 1 ∷ 2 ∷ 3 ∷ 4 ∷ 5 ∷ []

second_page : page_of (record { page = 2; page_size = 2 }) rows ≡ 3 ∷ 4 ∷ []
unfolding page_of
second_page = refl

refused_size : get_pagination_params (some 1) (some 101) ≡ none
unfolding get_pagination_params
refused_size = refl

pages_cover_example :
    first_pages 2 (total_pages (record { total_count = length rows; page = 1; page_size = 2 })) rows
    ≡ rows
pages_cover_example = pages_cover 2 1 rows (omega arith)
