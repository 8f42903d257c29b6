-- ===== src/Users/Query.antt =====
-- `UserQueryBuilder` and `UserService.list` of app/modules/users/service.py. How the database matches
-- a search pattern and orders the rows are parameters: `ilike` and `order_by`.
use zaraamad_portal_be.Base.{
  ℕ, Bool, true, false, not, ◌&&◌, ◌||◌, Option, none, some, List, eq_some, where_some, keep,
  length,
}
use zaraamad_portal_be.Text.{Text, is_empty}
use zaraamad_portal_be.Database.{User, UserRole, SortOrder, truthy, is_role}
use zaraamad_portal_be.Session.{Action, reads, pure, ◌>>=◌}
use zaraamad_portal_be.Pagination.{PaginationParams, PaginationMeta, page_of}

pub data SortColumn : Type 0 where
  id full_name mobile role customer_id is_active created_at updated_at : SortColumn

pub record Filters : Type 0 where
  pub role : Option UserRole
  pub customer_id : Option ℕ
  pub is_active : Option Bool
  pub search : Option Text

-- `User.is_active.is_(wanted)`, by default the active users.
abbrev pub activity : Option Bool → User → Bool
activity none u = truthy u.is_active
activity (some true) u = truthy u.is_active
activity (some false) u = elim u.is_active [ none ↦ false | some b ↦ not b ]

module _ (ilike : Text → Option Text → Bool) where
  -- `if search: query = query.where(or_(…))`
  abbrev pub matches_search : Option Text → User → Bool
  matches_search none u = true
  matches_search (some text) u =
      is_empty text
      || ilike text u.full_name
      || ilike text u.mobile
      || ilike text u.organization_name
      || ilike text u.organization_type

  -- The `where` clauses of `build_list_query`.
  unfoldable pub build_list_query : Filters → User → Bool
  build_list_query f u =
      where_some f.role (λ r. is_role u.role r)
      && (where_some f.customer_id (λ c. eq_some u.customer_id c)
          && (activity f.is_active u && matches_search f.search u))

  module _ (order_by : SortColumn → SortOrder → List User → List User) where
    unfoldable pub list :
        Filters → SortColumn → SortOrder → PaginationParams → Action (List User × PaginationMeta)
    unfolding build_list_query ◌>>=◌
    list f sort_by sort_order pagination = do
      rows ← reads (λ d. keep (build_list_query f) d.users)
      pure (
        page_of pagination (order_by sort_by sort_order rows),
        record {
          total_count = length rows;
          page = pagination.page;
          page_size = pagination.page_size;
        },
      )
