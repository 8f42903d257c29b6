-- ===== src/Access.antt =====
-- `CustomerScopedAccessPolicy`, which app/modules/customers/service.py and
-- app/modules/service_catalog/service.py both declare, in the same words.
use zaraamad_portal_be.Base.{ℕ, Bool, Option, none, some, ◌&&◌, ◌||◌, eq_some, if◌then◌else◌}
use zaraamad_portal_be.Text.{Text, codes}
use zaraamad_portal_be.Http.{ok, raised, http_exception, customer_access_denied}
use zaraamad_portal_be.Database.{UserRole, is_role}
use zaraamad_portal_be.Session.{Action}
use zaraamad_portal_be.Identity.{CurrentUser, role_value}

-- `current_user.role.value if current_user.role is not None else "unknown"`
abbrev role_label : Option UserRole → Text
role_label none = codes "unknown"
role_label (some r) = role_value r

-- An admin, or a customer user of that customer.
abbrev pub has_access : CurrentUser → ℕ → Bool
has_access user customer_id =
    is_role user.role UserRole.admin
    || (is_role user.role UserRole.customer && eq_some user.customer_id customer_id)

abbrev pub validate_customer_access : CurrentUser → ℕ → Action (Unit {0})
validate_customer_access user customer_id s = (
  (if has_access user customer_id
      then ok tt
      else raised (
          http_exception 403
            (customer_access_denied user.user_id (role_label user.role) customer_id))),
  s,
)
