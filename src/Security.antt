-- ===== src/Security.antt =====
-- app/common/security/jwt_service.py and app/common/security/dependencies.py: the claims of a token
-- and the caller that they stand for. Signing and verifying, which jose does, `str` of a number and
-- `int` of a text are parameters. The claims iat, exp, jti, iss and aud are read by jose alone.
pub mod Caller
mod Tests
use zaraamad_portal_be.Base.{
  ℕ, Bool, true, false, not, ◌&&◌, Option, none, some, List, [], ◌∷◌, ◌++◌, if◌then◌else◌, find_row,
}
use zaraamad_portal_be.Text.{Text, codes, text_eq, is_empty, strip}
use zaraamad_portal_be.Http.{
  admin_access_required, invalid_auth_token, invalid_token_type, missing_auth_token,
  token_subject_missing,
}
use zaraamad_portal_be.Database.{User, UserRole, Database, truthy}
use zaraamad_portal_be.Session.{Action, pure, fail, reads, fail_if, or_fail, ◌>>=◌, ◌>>◌}
use zaraamad_portal_be.Identity.{CurrentUser, among, role_value, has_role}

-- A claim: `None` or missing, a text, a list, or another value with its truth and its `str`.
pub data Scalar : Type 0 where
  null : Scalar
  text : Text → Scalar
  other : Bool → Text → Scalar

pub data Claim : Type 0 where
  scalar : Scalar → Claim
  items : List Scalar → Text → Claim

-- The claims that the resolver reads, and the two that name the user for other readers.
pub record Claims : Type 0 where
  pub sub : Claim
  pub user_id : Claim
  pub mobile : Claim
  pub role : Claim
  pub roles : Claim
  pub security_stamp : Claim
  pub token_type : Claim
  pub legacy_type : Claim

-- How `jwt.decode` ends.
pub data Decoded : Type 0 where
  refused not_mapping : Decoded
  decoded : Claims → Decoded

abbrev pub no_claim : Claim
no_claim = Claim.scalar Scalar.null

abbrev pub text_claim : Text → Claim
text_claim s = Claim.scalar (Scalar.text s)

-- `bool(value)`
pub is_true : Claim → Bool
is_true (Claim.scalar Scalar.null) = false
is_true (Claim.scalar (Scalar.text s)) = not (is_empty s)
is_true (Claim.scalar (Scalar.other b s)) = b
is_true (Claim.items [] s) = false
is_true (Claim.items (x ∷ xs) s) = true

-- `a or b`
pub claim_or : Claim → Claim → Claim
unfolding is_true
claim_or a b = if is_true a then a else b

-- `normalized or None`, for a stripped text.
pub non_empty : Text → Option Text
unfolding strip
non_empty s = if is_empty (strip s) then none else some (strip s)

-- `_as_string`
pub scalar_as_string : Scalar → Option Text
unfolding non_empty
scalar_as_string Scalar.null = none
scalar_as_string (Scalar.text s) = non_empty s
scalar_as_string (Scalar.other b s) = non_empty s

unfoldable pub as_string : Claim → Option Text
unfolding scalar_as_string
as_string (Claim.scalar x) = scalar_as_string x
as_string (Claim.items xs s) = non_empty s

abbrev listed : Option Text → List Text
listed none = []
listed (some s) = s ∷ []

-- The loop of `_normalize_roles` over a list.
pub role_texts : List Scalar → List Text
unfolding scalar_as_string
role_texts [] = []
role_texts (x ∷ xs) = elim (scalar_as_string x) [
  | none ↦ role_texts xs
  | some s ↦ s ∷ role_texts xs
]

pub normalize_roles : Claim → List Text
unfolding non_empty role_texts
normalize_roles (Claim.scalar Scalar.null) = []
normalize_roles (Claim.scalar (Scalar.text s)) = listed (non_empty s)
normalize_roles (Claim.scalar (Scalar.other b s)) = []
normalize_roles (Claim.items xs s) = role_texts xs

-- `_resolve_role`: the role of the row, or else the first that the token claims.
pub resolve_role : List Text → Option UserRole → Option UserRole
resolve_role roles (some r) = some r
resolve_role roles none =
    if among (codes "admin") roles
    then some UserRole.admin
    else if among (codes "customer") roles
    then some UserRole.customer
    else if among (codes "public") roles
    then some UserRole.public
    else none

abbrev pub user_id_of : User → ℕ
user_id_of u = u.id

abbrev active : Option User → Option User
active none = none
active (some u) = if truthy u.is_active then some u else none

-- The `CurrentUser` of the claims, without a row of the users and with one.
pub caller_of : Text → Claims → Option User → CurrentUser
unfolding as_string normalize_roles resolve_role
caller_of subject c none = record {
  user_id = subject;
  sub = as_string c.sub;
  roles = normalize_roles c.roles;
  security_stamp = as_string c.security_stamp;
  id = none;
  full_name = none;
  mobile = none;
  role = resolve_role (normalize_roles c.roles) none;
  customer_id = none;
  is_active = none;
}
caller_of subject c (some u) = record {
  user_id = subject;
  sub = as_string c.sub;
  roles = normalize_roles c.roles;
  security_stamp = as_string c.security_stamp;
  id = some u.id;
  full_name = elim u.full_name [ none ↦ none | some s ↦ non_empty s ];
  mobile = elim u.mobile [ none ↦ none | some s ↦ non_empty s ];
  role = resolve_role (normalize_roles c.roles) u.role;
  customer_id = u.customer_id;
  is_active = some (truthy u.is_active);
}

-- `_role_claim_for`
pub role_claim_for : UserRole → Text
role_claim_for UserRole.admin = codes "Admin"
role_claim_for UserRole.customer = codes "Customer"
role_claim_for UserRole.public = codes "Public"

-- The payload of `create_access_token`.
pub access_claims : (ℕ → Text) → ℕ → Text → UserRole → Claims
unfolding role_claim_for
access_claims str user_id mobile role = record {
  sub = text_claim (str user_id);
  user_id = text_claim (str user_id);
  mobile = text_claim mobile;
  role = text_claim (role_value role);
  roles =
      Claim.items (Scalar.text (role_claim_for role) ∷ [])
        (codes "['" ++ (role_claim_for role ++ codes "']"));
  security_stamp = no_claim;
  token_type = text_claim (codes "access");
  legacy_type = text_claim (codes "access");
}

abbrev pub is_access : Claim → Bool
is_access (Claim.scalar (Scalar.text s)) = text_eq s (codes "access")
is_access _ = false

-- `LocalUserHydrator.hydrate`
pub hydrate : (Text → Option ℕ) → Text → Action (Option User)
hydrate parse_int subject = elim (parse_int subject) [
  | none ↦ pure none
  | some k ↦ reads (λ d. active (find_row user_id_of k d.users))
]

-- `decode_access_token`, with the 401 that the resolver makes of its `ValueError`.
pub decode_access_token : Decoded → Action Claims
unfolding ◌>>=◌
decode_access_token refused = fail 401 invalid_auth_token
decode_access_token not_mapping = fail 401 invalid_auth_token
decode_access_token (decoded c) = do
  fail_if (not (is_access (claim_or c.token_type c.legacy_type))) 401 invalid_token_type
  pure c

module _ (decode : Text → Decoded) (parse_int : Text → Option ℕ) where
  -- `CurrentUserResolver.resolve`; `_resolve_subject` is its second line.
  unfoldable pub resolve : Text → Action CurrentUser
  unfolding decode_access_token ◌>>=◌
  resolve token = do
    payload ← decode_access_token (decode token)
    subject ← or_fail (as_string (claim_or payload.sub payload.user_id)) 401 token_subject_missing
    local_user ← hydrate parse_int subject
    pure (caller_of subject payload local_user)

  unfoldable pub get_current_user : Option Text → Action CurrentUser
  unfolding resolve
  get_current_user none = fail 401 missing_auth_token
  get_current_user (some token) = resolve token

-- `require_admin`, of the user that was resolved.
unfoldable pub require_admin : CurrentUser → Action CurrentUser
unfolding has_role ◌>>=◌
require_admin user = do
  fail_if (not (has_role user (role_value UserRole.admin))) 403 admin_access_required
  pure user
