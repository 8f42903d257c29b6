-- ===== src/Customers/Service.antt =====
-- `CustomerQueryBuilder` and `CustomerService` of app/modules/customers/service.py. How the
-- database matches a search pattern and orders the rows are parameters, `ilike` and `order_by`.
use zaraamad_portal_be.Base.{
  ℕ, Bool, true, not, ◌&&◌, ◌||◌, Option, none, some, List, [], ◌∷◌, ◌++◌, keep, length, find_row,
  update_row, set_or_keep, member, map,
}
use zaraamad_portal_be.Base.Int.{ℤ}
use zaraamad_portal_be.Text.{Text, is_empty}
use zaraamad_portal_be.Http.{Exception, http_exception, customer_not_found, data_integrity_error}
use zaraamad_portal_be.Database.{
  Customer, CustomerIncomeSummary, SortOrder, Database, truthy, flag_is,
}
use zaraamad_portal_be.Session.{
  Action, pure, reads, fail_if, or_fail, modify, commit, commit_or_rollback, ◌>>=◌, ◌>>◌,
}
use zaraamad_portal_be.Pagination.{PaginationParams, PaginationMeta, page_of}
use zaraamad_portal_be.Users.{customer_id_of}

pub record CustomerCreate : Type 0 where
  pub name : Text
  pub manager_name : Option Text
  pub grade : ℤ

pub record CustomerUpdate : Type 0 where
  pub name : Option (Option Text)
  pub manager_name : Option (Option Text)
  pub grade : Option (Option ℤ)
  pub is_active : Option (Option Bool)

-- The keys of `SORT_COLUMNS`.
pub data CustomerSortColumn : Type 0 where
  id name manager_name grade is_active created_at updated_at : CustomerSortColumn

unfoldable pub new_customer : ℕ → CustomerCreate → Customer
new_customer new_id dto = record {
  id = new_id;
  name = some dto.name;
  manager_name = dto.manager_name;
  grade = some dto.grade;
  is_active = some true;
}

unfoldable pub with_customer_update : CustomerUpdate → Customer → Customer
with_customer_update dto x = record x {
  name = set_or_keep dto.name x.name;
  manager_name = set_or_keep dto.manager_name x.manager_name;
  grade = set_or_keep dto.grade x.grade;
  is_active = set_or_keep dto.is_active x.is_active;
}

unfoldable pub customer_deactivated : Customer → Customer
customer_deactivated x = record x { is_active = some Bool.false }

abbrev put_customer : ℕ → (Customer → Customer) → Action (Unit {0})
put_customer k f = modify (λ d. record d { customers = update_row customer_id_of k f d.customers })

abbrev refused : Text → Exception
refused error_text = http_exception 409 data_integrity_error

module _ (ilike : Text → Option Text → Bool) where
  matches_search : Option Text → Customer → Bool
  matches_search none x = true
  matches_search (some text) x = is_empty text || ilike text x.name || ilike text x.manager_name

  -- The `where` clauses of `build_list_query`.
  unfoldable pub customer_query : Option Bool → Option Text → Customer → Bool
  unfolding matches_search
  customer_query wanted text x = flag_is wanted x.is_active && matches_search text x

  module _ (order_by : CustomerSortColumn → SortOrder → List Customer → List Customer) where
    pub list_customers :
        Option Bool
        → Option Text
        → CustomerSortColumn
        → SortOrder
        → PaginationParams
        → Action (List Customer × PaginationMeta)
    unfolding customer_query
    list_customers wanted text sort_by direction pagination = do
      rows ← reads (λ d. keep (customer_query wanted text) d.customers)
      pure (
        page_of pagination (order_by sort_by direction rows),
        record {
          total_count = length rows;
          page = pagination.page;
          page_size = pagination.page_size;
        },
      )

    pub list_all_customers : Action (List Customer)
    unfolding customer_query
    list_all_customers = reads (λ d.
        order_by CustomerSortColumn.id SortOrder.asc
          (keep (customer_query (some true) none) d.customers))

    -- The outer join with the summaries leaves a null key where a customer has none.
    abbrev has_no_income : Database → Customer → Bool
    has_no_income d x =
        not (member x.id (map (λ (y : CustomerIncomeSummary). y.customer_id) d.income_summaries))

    pub list_without_income :
        Option Text
        → CustomerSortColumn
        → SortOrder
        → PaginationParams
        → Action (List Customer × PaginationMeta)
    unfolding customer_query
    list_without_income text sort_by direction pagination = do
      rows ←
          reads
            (λ d. keep (λ x. customer_query (some true) text x && has_no_income d x) d.customers)
      pure (
        page_of pagination (order_by sort_by direction rows),
        record {
          total_count = length rows;
          page = pagination.page;
          page_size = pagination.page_size;
        },
      )

unfoldable pub get_customer_or_404 : ℕ → Action Customer
get_customer_or_404 k = do
  found ← reads (λ d. find_row customer_id_of k d.customers)
  or_fail found 404 customer_not_found

unfoldable pub get_active_customer_or_404 : ℕ → Action Customer
unfolding get_customer_or_404
get_active_customer_or_404 k = do
  x ← get_customer_or_404 k
  fail_if (not (truthy x.is_active)) 404 customer_not_found
  pure x

module _ (violation : Database → Option Text) where
  unfoldable pub create_customer : ℕ → CustomerCreate → Action Customer
  unfolding commit_or_rollback
  create_customer new_id dto = do
    modify (λ d. record d { customers = d.customers ++ new_customer new_id dto ∷ [] })
    commit_or_rollback violation refused
    pure (new_customer new_id dto)

  unfoldable pub update_customer : ℕ → CustomerUpdate → Action Customer
  unfolding get_customer_or_404 commit_or_rollback
  update_customer k dto = do
    x ← get_customer_or_404 k
    put_customer k (with_customer_update dto)
    commit_or_rollback violation refused
    pure (with_customer_update dto x)

  unfoldable pub deactivate_customer : ℕ → Action Customer
  unfolding get_customer_or_404 commit
  deactivate_customer k = do
    x ← get_customer_or_404 k
    put_customer k customer_deactivated
    commit violation
    pure (customer_deactivated x)
