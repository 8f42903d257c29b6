-- ===== src/Identity.antt =====
-- The caller of a request, `CurrentUser` of app/common/dtos.py, without the raw claims of its
-- token, and `has_role`.
use zaraamad_portal_be.Base.{ℕ, Bool, false, Option, none, some, List, [], ◌∷◌, ◌||◌}
use zaraamad_portal_be.Text.{Text, text_eq, strip, lower, codes}
use zaraamad_portal_be.Database.{UserRole}

pub record CurrentUser : Type 0 where
  pub user_id : Text
  pub sub : Option Text
  pub roles : List Text
  pub security_stamp : Option Text
  pub id : Option ℕ
  pub full_name : Option Text
  pub mobile : Option Text
  pub role : Option UserRole
  pub customer_id : Option ℕ
  pub is_active : Option Bool

-- `UserRole.…value`, which is in lower case.
abbrev pub role_value : UserRole → Text
role_value UserRole.admin = codes "admin"
role_value UserRole.customer = codes "customer"
role_value UserRole.public = codes "public"

-- `x in {role.strip().lower() for role in roles}`
abbrev pub among : Text → List Text → Bool
among x [] = false
among x (r ∷ roles) = text_eq (lower (strip r)) x || among x roles

abbrev pub holds_role : Option UserRole → Text → Bool
holds_role none x = false
holds_role (some r) x = text_eq (lower (role_value r)) x

unfoldable pub has_role : CurrentUser → Text → Bool
unfolding strip lower
has_role user role_name =
    let target = lower (strip role_name) in among target user.roles || holds_role user.role target
