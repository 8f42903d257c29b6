-- ===== src/Catalog/Lookup.antt =====
-- `CustomerLookupService` and `UserLookupService` of app/modules/service_catalog/service.py, and the
-- join of a configuration with its service, group and project.
use zaraamad_portal_be.Base.{ℕ, Bool, not, ◌&&◌, Option, none, some, find_row, provided, eq_some}
use zaraamad_portal_be.Base.Int.{ℤ}
use zaraamad_portal_be.Text.{Text}
use zaraamad_portal_be.Http.{customer_not_found, user_id_invalid}
use zaraamad_portal_be.Database.{
  Customer, User, UserRole, ServiceProject, ServiceGroup, Service, CustomerServiceConfig, Database,
  truthy, is_role,
}
use zaraamad_portal_be.Session.{Action, pure, reads, fail_if, or_fail, ◌>>=◌, ◌>>◌}
use zaraamad_portal_be.Users.{customer_id_of, user_id_of}

-- The columns of a customer that the lookup reads.
pub record CustomerInfo : Type 0 where
  pub id : ℕ
  pub name : Option Text
  pub grade : Option ℤ

abbrev customer_info : Customer → CustomerInfo
customer_info c = record { id = c.id; name = c.name; grade = c.grade }

abbrev pub customer_is_active : Customer → Bool
customer_is_active c = truthy c.is_active

-- `CustomerLookupService.get_or_404`
unfoldable pub get_customer_or_404 : ℕ → Action CustomerInfo
get_customer_or_404 customer_id = do
  found ← reads (λ d. find_row customer_id_of customer_id d.customers)
  customer ← or_fail found 404 customer_not_found
  pure (customer_info customer)

-- `CustomerLookupService.get_active_or_404`
unfoldable pub get_active_customer_or_404 : ℕ → Action CustomerInfo
get_active_customer_or_404 customer_id = do
  found ← reads (λ d. find_row customer_id_of customer_id d.customers)
  customer ← or_fail (provided customer_is_active found) 404 customer_not_found
  pure (customer_info customer)

abbrev pub user_is_active : User → Bool
user_is_active u = truthy u.is_active

-- `UserLookupService.get_active_for_customer_snapshot_or_422`
unfoldable pub get_active_for_customer_snapshot_or_422 : ℕ → ℕ → Action User
get_active_for_customer_snapshot_or_422 user_id customer_id = do
  found ← reads (λ d. find_row user_id_of user_id d.users)
  user ← or_fail (provided user_is_active found) 422 user_id_invalid
  fail_if (is_role user.role UserRole.customer && not (eq_some user.customer_id customer_id)) 422
      user_id_invalid
  pure user

abbrev pub project_id_of : ServiceProject → ℕ
project_id_of p = p.id

abbrev pub group_id_of : ServiceGroup → ℕ
group_id_of g = g.id

abbrev pub service_id_of : Service → ℕ
service_id_of x = x.id

abbrev pub config_id_of : CustomerServiceConfig → ℕ
config_id_of c = c.id

-- A row of `select(CustomerServiceConfig, Service, ServiceGroup, ServiceProject)`, in
-- `resolve_items` a `ResolvedCustomerServicePurchaseSelection`.
pub record Joined : Type 0 where
  pub config : CustomerServiceConfig
  pub service : Service
  pub group : ServiceGroup
  pub project : ServiceProject

-- The row that the inner joins make of a configuration, if each of them finds its row.
abbrev pub join_config : Database → CustomerServiceConfig → Option Joined
join_config d config = elim (find_row service_id_of config.service_id d.services) [
  | none ↦ none
  | some service ↦ elim (find_row group_id_of service.group_id d.service_groups) [
    | none ↦ none
    | some group ↦ elim (find_row project_id_of service.project_id d.service_projects) [
      | none ↦ none
      | some project ↦
          some (record { config = config; service = service; group = group; project = project })
    ]
  ]
]
