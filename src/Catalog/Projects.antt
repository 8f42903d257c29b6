-- ===== src/Catalog/Projects.antt =====
-- `ServiceProjectQueryBuilder` and `ServiceProjectService` of app/modules/service_catalog/service.py. How the
-- database matches a search pattern and orders the rows are parameters, `ilike` and `order_by`.
use zaraamad_portal_be.Base.{
  ℕ, Bool, true, not, ◌&&◌, ◌||◌, Option, none, some, List, [], ◌∷◌, ◌++◌, keep, length, find_row,
  update_row, set_or_keep,
}
use zaraamad_portal_be.Base.Int.{ℤ}
use zaraamad_portal_be.Text.{Text, is_empty}
use zaraamad_portal_be.Http.{
  Exception, http_exception, service_project_not_found, data_integrity_error,
}
use zaraamad_portal_be.Database.{ServiceProject, SortOrder, Database, truthy, flag_is}
use zaraamad_portal_be.Session.{
  Action, pure, reads, fail_if, or_fail, modify, commit, commit_or_rollback, ◌>>=◌, ◌>>◌,
}
use zaraamad_portal_be.Pagination.{PaginationParams, PaginationMeta, page_of}
use zaraamad_portal_be.Catalog.Lookup.{project_id_of}

pub record ServiceProjectCreate : Type 0 where
  pub name : Text
  pub description : Option Text
  pub sort_order : Option ℤ

pub record ServiceProjectUpdate : Type 0 where
  pub name : Option (Option Text)
  pub description : Option (Option Text)
  pub sort_order : Option (Option ℤ)
  pub is_active : Option (Option Bool)

pub data ProjectSortColumn : Type 0 where
  id name sort_order is_active created_at updated_at : ProjectSortColumn

unfoldable pub new_project : ℕ → ServiceProjectCreate → ServiceProject
new_project new_id dto = record {
  id = new_id;
  name = some dto.name;
  description = dto.description;
  sort_order = dto.sort_order;
  is_active = some true;
}

unfoldable pub with_project_update : ServiceProjectUpdate → ServiceProject → ServiceProject
with_project_update dto x = record x {
  name = set_or_keep dto.name x.name;
  description = set_or_keep dto.description x.description;
  sort_order = set_or_keep dto.sort_order x.sort_order;
  is_active = set_or_keep dto.is_active x.is_active;
}

unfoldable pub project_deactivated : ServiceProject → ServiceProject
project_deactivated x = record x { is_active = some Bool.false }

abbrev put_project : ℕ → (ServiceProject → ServiceProject) → Action (Unit {0})
put_project k f =
    modify (λ d. record d { service_projects = update_row project_id_of k f d.service_projects })

-- `_commit_with_integrity_guard`
abbrev refused : Text → Exception
refused error_text = http_exception 409 data_integrity_error

module _ (ilike : Text → Option Text → Bool) where
  matches_search : Option Text → ServiceProject → Bool
  matches_search none x = true
  matches_search (some text) x = is_empty text || ilike text x.name || ilike text x.description

  -- The `where` clauses of `build_list_query`.
  unfoldable pub project_query : Option Bool → Option Text → ServiceProject → Bool
  unfolding matches_search
  project_query wanted text x = flag_is wanted x.is_active && matches_search text x

  module _
      (order_by : ProjectSortColumn → SortOrder → List ServiceProject → List ServiceProject) where
    pub list_projects :
        Option Bool
        → Option Text
        → ProjectSortColumn
        → SortOrder
        → PaginationParams
        → Action (List ServiceProject × PaginationMeta)
    unfolding project_query
    list_projects wanted text sort_by direction pagination = do
      rows ← reads (λ d. keep (project_query wanted text) d.service_projects)
      pure (
        page_of pagination (order_by sort_by direction rows),
        record {
          total_count = length rows;
          page = pagination.page;
          page_size = pagination.page_size;
        },
      )

    pub list_all_projects : Action (List ServiceProject)
    unfolding project_query
    list_all_projects = reads (λ d.
        order_by sort_order SortOrder.asc
          (keep (project_query (some true) none) d.service_projects))

unfoldable pub get_project_or_404 : ℕ → Action ServiceProject
get_project_or_404 k = do
  found ← reads (λ d. find_row project_id_of k d.service_projects)
  or_fail found 404 service_project_not_found

unfoldable pub get_active_project_or_404 : ℕ → Action ServiceProject
unfolding get_project_or_404
get_active_project_or_404 k = do
  x ← get_project_or_404 k
  fail_if (not (truthy x.is_active)) 404 service_project_not_found
  pure x

module _ (violation : Database → Option Text) where
  unfoldable pub create_project : ℕ → ServiceProjectCreate → Action ServiceProject
  unfolding commit_or_rollback
  create_project new_id dto = do
    modify (λ d. record d { service_projects = d.service_projects ++ new_project new_id dto ∷ [] })
    commit_or_rollback violation refused
    pure (new_project new_id dto)

  unfoldable pub update_project : ℕ → ServiceProjectUpdate → Action ServiceProject
  unfolding get_project_or_404 commit_or_rollback
  update_project k dto = do
    x ← get_project_or_404 k
    put_project k (with_project_update dto)
    commit_or_rollback violation refused
    pure (with_project_update dto x)

  unfoldable pub deactivate_project : ℕ → Action ServiceProject
  unfolding get_project_or_404 commit
  deactivate_project k = do
    x ← get_project_or_404 k
    put_project k project_deactivated
    commit violation
    pure (project_deactivated x)
