-- ===== src/Catalog/Groups.antt =====
-- `ServiceGroupQueryBuilder` and `ServiceGroupService` of app/modules/service_catalog/service.py. How the
-- database matches a search pattern and orders the rows are parameters, `ilike` and `order_by`.
use zaraamad_portal_be.Base.{
  ℕ, Bool, true, not, ◌&&◌, ◌||◌, Option, none, some, List, [], ◌∷◌, ◌++◌, keep, length, find_row,
  update_row, set_or_keep,
}
use zaraamad_portal_be.Base.Int.{ℤ}
use zaraamad_portal_be.Text.{Text, is_empty}
use zaraamad_portal_be.Http.{
  Exception, http_exception, service_group_not_found, data_integrity_error,
}
use zaraamad_portal_be.Database.{ServiceGroup, SortOrder, Database, truthy, flag_is}
use zaraamad_portal_be.Session.{
  Action, pure, reads, fail_if, or_fail, modify, commit, commit_or_rollback, ◌>>=◌, ◌>>◌,
}
use zaraamad_portal_be.Pagination.{PaginationParams, PaginationMeta, page_of}
use zaraamad_portal_be.Catalog.Lookup.{group_id_of}

pub record ServiceGroupCreate : Type 0 where
  pub name : Text
  pub description : Option Text
  pub sort_order : Option ℤ

pub record ServiceGroupUpdate : Type 0 where
  pub name : Option (Option Text)
  pub description : Option (Option Text)
  pub sort_order : Option (Option ℤ)
  pub is_active : Option (Option Bool)

pub data GroupSortColumn : Type 0 where
  id name sort_order is_active created_at updated_at : GroupSortColumn

unfoldable pub new_group : ℕ → ServiceGroupCreate → ServiceGroup
new_group new_id dto = record {
  id = new_id;
  name = some dto.name;
  description = dto.description;
  sort_order = dto.sort_order;
  is_active = some true;
}

unfoldable pub with_group_update : ServiceGroupUpdate → ServiceGroup → ServiceGroup
with_group_update dto x = record x {
  name = set_or_keep dto.name x.name;
  description = set_or_keep dto.description x.description;
  sort_order = set_or_keep dto.sort_order x.sort_order;
  is_active = set_or_keep dto.is_active x.is_active;
}

unfoldable pub group_deactivated : ServiceGroup → ServiceGroup
group_deactivated x = record x { is_active = some Bool.false }

abbrev put_group : ℕ → (ServiceGroup → ServiceGroup) → Action (Unit {0})
put_group k f =
    modify (λ d. record d { service_groups = update_row group_id_of k f d.service_groups })

-- `_commit_with_integrity_guard`
abbrev refused : Text → Exception
refused error_text = http_exception 409 data_integrity_error

module _ (ilike : Text → Option Text → Bool) where
  matches_search : Option Text → ServiceGroup → Bool
  matches_search none x = true
  matches_search (some text) x = is_empty text || ilike text x.name || ilike text x.description

  -- The `where` clauses of `build_list_query`.
  unfoldable pub group_query : Option Bool → Option Text → ServiceGroup → Bool
  unfolding matches_search
  group_query wanted text x = flag_is wanted x.is_active && matches_search text x

  module _ (order_by : GroupSortColumn → SortOrder → List ServiceGroup → List ServiceGroup) where
    pub list_groups :
        Option Bool
        → Option Text
        → GroupSortColumn
        → SortOrder
        → PaginationParams
        → Action (List ServiceGroup × PaginationMeta)
    unfolding group_query
    list_groups wanted text sort_by direction pagination = do
      rows ← reads (λ d. keep (group_query wanted text) d.service_groups)
      pure (
        page_of pagination (order_by sort_by direction rows),
        record {
          total_count = length rows;
          page = pagination.page;
          page_size = pagination.page_size;
        },
      )

    pub list_all_groups : Action (List ServiceGroup)
    unfolding group_query
    list_all_groups = reads (λ d.
        order_by sort_order SortOrder.asc (keep (group_query (some true) none) d.service_groups))

unfoldable pub get_group_or_404 : ℕ → Action ServiceGroup
get_group_or_404 k = do
  found ← reads (λ d. find_row group_id_of k d.service_groups)
  or_fail found 404 service_group_not_found

unfoldable pub get_active_group_or_404 : ℕ → Action ServiceGroup
unfolding get_group_or_404
get_active_group_or_404 k = do
  x ← get_group_or_404 k
  fail_if (not (truthy x.is_active)) 404 service_group_not_found
  pure x

module _ (violation : Database → Option Text) where
  unfoldable pub create_group : ℕ → ServiceGroupCreate → Action ServiceGroup
  unfolding commit_or_rollback
  create_group new_id dto = do
    modify (λ d. record d { service_groups = d.service_groups ++ new_group new_id dto ∷ [] })
    commit_or_rollback violation refused
    pure (new_group new_id dto)

  unfoldable pub update_group : ℕ → ServiceGroupUpdate → Action ServiceGroup
  unfolding get_group_or_404 commit_or_rollback
  update_group k dto = do
    x ← get_group_or_404 k
    put_group k (with_group_update dto)
    commit_or_rollback violation refused
    pure (with_group_update dto x)

  unfoldable pub deactivate_group : ℕ → Action ServiceGroup
  unfolding get_group_or_404 commit
  deactivate_group k = do
    x ← get_group_or_404 k
    put_group k group_deactivated
    commit violation
    pure (group_deactivated x)
