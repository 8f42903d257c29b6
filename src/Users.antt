-- ===== src/Users.antt =====
-- app/modules/users/service.py: the policy on the profile of a role, and the
-- creation, the update and the deactivation of users.
pub mod Roles
pub mod Outcome
pub mod Invariant
pub mod Listing
pub mod Query
mod Tests
use zaraamad_portal_be.Base.{
  ℕ, Bool, true, false, not, ◌&&◌, ◌||◌, Option, none, some, List, [], ◌∷◌, ◌++◌, if◌then◌else◌,
  find_row, update_row, set_or_keep,
}
use zaraamad_portal_be.Text.{Text, codes, strip, is_empty, lower, contains}
use zaraamad_portal_be.Http.{
  Exception, http_exception, customer_id_required, customer_id_invalid_or_inactive,
  organization_name_required, organization_type_required, user_not_found, mobile_already_exists,
  data_integrity_error,
}
use zaraamad_portal_be.Database.{Customer, User, UserRole, Database, truthy, is_role}
use zaraamad_portal_be.Session.{
  Action, pure, reads, fail_if, or_fail, or_raise, modify, commit, commit_or_rollback, ◌>>=◌, ◌>>◌,
}
use zaraamad_portal_be.Password.{Hashing, hash_password}

-- What `resolve_profile` returns.
pub record Profile : Type 0 where
  pub customer_id : Option ℕ
  pub organization_name : Option Text
  pub organization_type : Option Text

abbrev pub customer_id_of : Customer → ℕ
customer_id_of c = c.id

abbrev pub user_id_of : User → ℕ
user_id_of u = u.id

-- `customers.id == customer_id and customers.is_active is true`
pub is_active_customer : Database → ℕ → Bool
is_active_customer d customer_id = elim (find_row customer_id_of customer_id d.customers) [
  | none ↦ false
  | some c ↦ truthy c.is_active
]

abbrev guarded : Bool → ℕ → Option ℕ
guarded test n = if test then some n else none

-- `UserRolePolicy`
pub resolve_customer_id : Option UserRole → Option ℕ → Action (Option ℕ)
unfolding ◌>>=◌
resolve_customer_id role customer_id =
    if is_role role UserRole.admin || is_role role UserRole.public then pure none else (do
      wanted ← or_fail customer_id 422 customer_id_required
      found ← reads (λ d. guarded (is_active_customer d wanted) wanted)
      or_fail found 422 customer_id_invalid_or_inactive
      pure (some wanted))

-- `x.strip() if x else None`, where an empty text counts as missing.
pub stripped : Option Text → Option Text
unfolding strip
stripped none = none
stripped (some s) = if is_empty (strip s) then none else some (strip s)

pub resolve_organization_fields :
    Option UserRole → Option Text → Option Text → Action (Option Text × Option Text)
unfolding stripped ◌>>=◌
resolve_organization_fields role organization_name organization_type =
    if not (is_role role UserRole.public) then pure (none, none) else (do
      name ← or_fail (stripped organization_name) 422 organization_name_required
      kind ← or_fail (stripped organization_type) 422 organization_type_required
      pure (some name, some kind))

pub resolve_profile : Option UserRole → Option ℕ → Option Text → Option Text → Action Profile
unfolding resolve_customer_id resolve_organization_fields ◌>>=◌
resolve_profile role customer_id organization_name organization_type = do
  resolved_customer_id ← resolve_customer_id role customer_id
  fields ← resolve_organization_fields role organization_name organization_type
  pure (record {
    customer_id = resolved_customer_id;
    organization_name = fields.0;
    organization_type = fields.1;
  })

-- The requests of app/modules/users/dtos.py. A field of an update is `none` where the request leaves
-- it unset, and `some none` where it sets it to null.
pub record UserCreate : Type 0 where
  pub full_name : Text
  pub mobile : Text
  pub role : UserRole
  pub customer_id : Option ℕ
  pub organization_name : Option Text
  pub organization_type : Option Text
  pub password : Option Text

pub record UserUpdate : Type 0 where
  pub full_name : Option (Option Text)
  pub mobile : Option (Option Text)
  pub password : Option (Option Text)
  pub role : Option (Option UserRole)
  pub customer_id : Option (Option ℕ)
  pub organization_name : Option (Option Text)
  pub organization_type : Option (Option Text)
  pub is_active : Option (Option Bool)

-- `_integrity_exception`
pub integrity_exception : Text → Exception
integrity_exception error_text =
    if contains (codes "mobile") (lower error_text)
    then http_exception 409 mobile_already_exists
    else http_exception 409 data_integrity_error

pub new_user : ℕ → UserCreate → Profile → Option Text → User
new_user new_id dto p password = record {
  id = new_id;
  full_name = some dto.full_name;
  mobile = some dto.mobile;
  password = password;
  organization_name = p.organization_name;
  organization_type = p.organization_type;
  role = some dto.role;
  is_active = some true;
  customer_id = p.customer_id;
}

abbrev pub or_else : {A : Type 0} → Option A → Option A → Option A
or_else none b = b
or_else (some a) b = some a

-- The assignments of `update`: of the fields that are set, of the profile, and of a new password.
pub with_update : UserUpdate → Profile → Option Text → User → User
with_update dto p password u = record u {
  full_name = set_or_keep dto.full_name u.full_name;
  mobile = set_or_keep dto.mobile u.mobile;
  is_active = set_or_keep dto.is_active u.is_active;
  role = set_or_keep dto.role u.role;
  customer_id = p.customer_id;
  organization_name = p.organization_name;
  organization_type = p.organization_type;
  password = or_else password u.password;
}

pub deactivated : User → User
deactivated u = record u { is_active = some false }

abbrev put_user : ℕ → (User → User) → Action (Unit {0})
put_user user_id f = modify (λ d. record d { users = update_row user_id_of user_id f d.users })

pub get_or_404 : ℕ → Action User
unfolding ◌>>=◌
get_or_404 user_id = do
  found ← reads (λ d. find_row user_id_of user_id d.users)
  or_fail found 404 user_not_found

pub get_active_or_404 : ℕ → Action User
unfolding get_or_404 ◌>>=◌
get_active_or_404 user_id = do
  user ← get_or_404 user_id
  fail_if (not (truthy user.is_active)) 404 user_not_found
  pure user

module _ (hashing : Hashing) where
  -- `_hash_password` and `_extract_password_update`: no password, or an empty one, is none.
  pub hash_given : Text → Option Text → Action (Option Text)
  unfolding ◌>>=◌
  hash_given salt none = pure none
  hash_given salt (some password) =
      if is_empty password
      then pure none
      else (do hashed ← or_raise (hash_password hashing salt password); pure (some hashed))

module _ (violation : Database → Option Text) (hashing : Hashing) where
  pub create : Text → ℕ → UserCreate → Action User
  unfolding commit_or_rollback ◌>>=◌
  create salt new_id dto = do
    p ← resolve_profile (some dto.role) dto.customer_id dto.organization_name dto.organization_type
    password ← hash_given hashing salt dto.password
    modify (λ d. record d { users = d.users ++ new_user new_id dto p password ∷ [] })
    commit_or_rollback violation integrity_exception
    pure (new_user new_id dto p password)

  pub update : Text → ℕ → UserUpdate → Action User
  unfolding get_or_404 commit_or_rollback ◌>>=◌
  update salt user_id dto = do
    user ← get_or_404 user_id
    password ← hash_given hashing salt (set_or_keep dto.password none)
    p ←
        resolve_profile (set_or_keep dto.role user.role)
          (set_or_keep dto.customer_id user.customer_id)
          (set_or_keep dto.organization_name user.organization_name)
          (set_or_keep dto.organization_type user.organization_type)
    put_user user_id (with_update dto p password)
    commit_or_rollback violation integrity_exception
    pure (with_update dto p password user)

  pub deactivate : ℕ → Action User
  unfolding get_or_404 commit ◌>>=◌
  deactivate user_id = do
    user ← get_or_404 user_id
    put_user user_id deactivated
    commit violation
    pure (deactivated user)
