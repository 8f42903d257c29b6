-- ===== src/Catalog/Services.antt =====
-- `ServiceCatalogService` of app/modules/service_catalog/service.py, without its lists: a service
-- belongs to a project and a group.
use zaraamad_portal_be.Base.{
  ℕ, Bool, true, false, ◌&&◌, Option, none, some, [], ◌∷◌, ◌++◌, find_row, update_row, set_or_keep,
  provided,
}
use zaraamad_portal_be.Base.Int.{ℤ}
use zaraamad_portal_be.Text.{Text}
use zaraamad_portal_be.Http.{
  Exception, http_exception, service_not_found, project_id_invalid, project_id_cannot_be_null,
  group_id_invalid, group_id_cannot_be_null, data_integrity_error,
}
use zaraamad_portal_be.Database.{ServiceProject, ServiceGroup, Service, Database, truthy}
use zaraamad_portal_be.Session.{
  Action, pure, fail, reads, or_fail, modify, commit, commit_or_rollback, ◌>>=◌, ◌>>◌,
}
use zaraamad_portal_be.Catalog.Lookup.{project_id_of, group_id_of, service_id_of}

pub record ServiceCreate : Type 0 where
  pub project_id : ℕ
  pub group_id : ℕ
  pub name : Text
  pub description : Option Text
  pub sort_order : Option ℤ

pub record ServiceUpdate : Type 0 where
  pub project_id : Option (Option ℕ)
  pub group_id : Option (Option ℕ)
  pub name : Option (Option Text)
  pub description : Option (Option Text)
  pub sort_order : Option (Option ℤ)
  pub is_active : Option (Option Bool)

-- A row of `select(Service, ServiceGroup, ServiceProject)`.
pub record ServiceRow : Type 0 where
  pub service : Service
  pub group : ServiceGroup
  pub project : ServiceProject

-- The row that the inner joins make of a service, if each of them finds its row.
abbrev pub join_service : Database → Service → Option ServiceRow
join_service d service = elim (find_row group_id_of service.group_id d.service_groups) [
  | none ↦ none
  | some group ↦ elim (find_row project_id_of service.project_id d.service_projects) [
    | none ↦ none
    | some project ↦ some (record { service = service; group = group; project = project })
  ]
]

unfoldable pub new_service : ℕ → ServiceCreate → Service
new_service new_id dto = record {
  id = new_id;
  project_id = dto.project_id;
  group_id = dto.group_id;
  name = some dto.name;
  description = dto.description;
  is_active = some true;
  sort_order = dto.sort_order;
}

-- A key of an update: a null was refused before.
abbrev key_or : Option (Option ℕ) → ℕ → ℕ
key_or none old = old
key_or (some none) old = old
key_or (some (some new)) old = new

unfoldable pub with_service_update : ServiceUpdate → Service → Service
with_service_update dto x = record x {
  project_id = key_or dto.project_id x.project_id;
  group_id = key_or dto.group_id x.group_id;
  name = set_or_keep dto.name x.name;
  description = set_or_keep dto.description x.description;
  sort_order = set_or_keep dto.sort_order x.sort_order;
  is_active = set_or_keep dto.is_active x.is_active;
}

unfoldable pub service_deactivated : Service → Service
service_deactivated x = record x { is_active = some false }

abbrev pub put_service : ℕ → (Service → Service) → Database → Database
put_service k f d = record d { services = update_row service_id_of k f d.services }

-- `_get_group_or_422` and `_get_project_or_422`
unfoldable pub get_group_or_422 : ℕ → Action ServiceGroup
get_group_or_422 k = do
  found ← reads (λ d. find_row group_id_of k d.service_groups)
  or_fail found 422 group_id_invalid

unfoldable pub get_project_or_422 : ℕ → Action ServiceProject
get_project_or_422 k = do
  found ← reads (λ d. find_row project_id_of k d.service_projects)
  or_fail found 422 project_id_invalid

-- `if "project_id" in update_data`, and the same for the group.
unfoldable pub check_project : Option (Option ℕ) → Action (Unit {0})
unfolding get_project_or_422
check_project none = pure tt
check_project (some none) = fail 422 project_id_cannot_be_null
check_project (some (some k)) = get_project_or_422 k >>= λ _. pure tt

unfoldable pub check_group : Option (Option ℕ) → Action (Unit {0})
unfolding get_group_or_422
check_group none = pure tt
check_group (some none) = fail 422 group_id_cannot_be_null
check_group (some (some k)) = get_group_or_422 k >>= λ _. pure tt

abbrev service_refused : Text → Exception
service_refused error_text = http_exception 409 data_integrity_error

unfoldable pub get_service_or_404 : ℕ → Action ServiceRow
get_service_or_404 k = do
  service ← reads (λ d. find_row service_id_of k d.services)
  found ← or_fail service 404 service_not_found
  row ← reads (λ d. join_service d found)
  or_fail row 404 service_not_found

abbrev pub service_row_is_active : ServiceRow → Bool
service_row_is_active row =
    truthy row.service.is_active && (truthy row.group.is_active && truthy row.project.is_active)

unfoldable pub get_active_service_or_404 : ℕ → Action ServiceRow
get_active_service_or_404 k = do
  service ← reads (λ d. find_row service_id_of k d.services)
  found ← or_fail service 404 service_not_found
  row ← reads (λ d. join_service d found)
  or_fail (provided service_row_is_active row) 404 service_not_found

module _ (violation : Database → Option Text) where
  unfoldable pub create_service : ℕ → ServiceCreate → Action ServiceRow
  unfolding get_project_or_422 get_group_or_422 commit_or_rollback
  create_service new_id dto = do
    project ← get_project_or_422 dto.project_id
    group ← get_group_or_422 dto.group_id
    modify (λ d. record d { services = d.services ++ new_service new_id dto ∷ [] })
    commit_or_rollback violation service_refused
    pure (record { service = new_service new_id dto; group = group; project = project })

  unfoldable pub update_service : ℕ → ServiceUpdate → Action ServiceRow
  unfolding get_service_or_404 check_project check_group commit_or_rollback
  update_service k dto = do
    row ← get_service_or_404 k
    check_project dto.project_id
    check_group dto.group_id
    modify (put_service k (with_service_update dto))
    commit_or_rollback violation service_refused
    get_service_or_404 k

  unfoldable pub deactivate_service : ℕ → Action ServiceRow
  unfolding get_service_or_404 commit
  deactivate_service k = do
    row ← get_service_or_404 k
    modify (put_service k service_deactivated)
    commit violation
    get_service_or_404 k
