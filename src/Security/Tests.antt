-- ===== src/Security/Tests.antt =====
-- Runs of the resolver with keys of one digit, and its theorems there.
use zaraamad_portal_be.Base.{
  ℕ, ◌+◌, ◌-◌, Bool, true, false, Option, none, some, [], ◌∷◌, ◌≡◌, refl, ◌⊎◌, if◌then◌else◌,
}
use zaraamad_portal_be.Text.{Text, codes, text_eq, strip, lower}
use zaraamad_portal_be.Http.{ok, is_ok, raised, http_exception, missing_auth_token}
use zaraamad_portal_be.Database.{User, UserRole, Database, empty_database}
use zaraamad_portal_be.Session.{begin, ◌>>=◌}
use zaraamad_portal_be.Identity.{CurrentUser}
use zaraamad_portal_be.Security.{
  Decoded, decoded, refused, access_claims, role_claim_for, get_current_user, require_admin,
  caller_of, claim_or, is_true, as_string, scalar_as_string, non_empty, hydrate, normalize_roles,
  role_texts, resolve_role,
}
use zaraamad_portal_be.Security.Caller.{
  IsLocal, get_current_user-IsLocal, get_current_user-access_claims,
}

abbrev one_digit : ℕ → Text
one_digit n = (48 + n) ∷ []

abbrev read_digit : Text → Option ℕ
read_digit [] = none
read_digit (c ∷ []) = some (c - 48)
read_digit (c ∷ d ∷ s) = none

abbrev issued : Text → Decoded
issued t =
    if text_eq t (codes "token")
    then decoded (access_claims one_digit 7 (codes "09121234567") UserRole.admin)
    else refused

abbrev boss : Bool → User
boss active = record {
  id = 7;
  full_name = some (codes "Ali");
  mobile = some (codes "09121234567");
  password = none;
  organization_name = none;
  organization_type = none;
  role = some UserRole.admin;
  is_active = some active;
  customer_id = none;
}

abbrev staff : Bool → Database
staff active = record empty_database { users = boss active ∷ [] }

no_token :
    (get_current_user issued read_digit none (begin (staff true))).0
    ≡ raised (http_exception 401 missing_auth_token)
unfolding get_current_user
no_token = refl

seven_is_clean : strip (one_digit 7) ≡ one_digit 7
unfolding strip
seven_is_clean = refl

get_current_user-access_claims_example :
    (user : CurrentUser) × (get_current_user issued read_digit
        (some (codes "token"))
        (begin (staff true))
      ≡ (ok user, begin (staff true)))
    × (user.id ≡ some 7)
    × (user.customer_id ≡ none)
    × (user.roles ≡ role_claim_for UserRole.admin ∷ [])
get_current_user-access_claims_example =
    get_current_user-access_claims read_digit issued one_digit 7 (codes "09121234567")
      UserRole.admin (codes "token") (boss true) (begin (staff true)) seven_is_clean refl refl refl
      refl refl

abbrev resolved_boss : CurrentUser
resolved_boss =
    caller_of (one_digit 7) (access_claims one_digit 7 (codes "09121234567") UserRole.admin)
      (some (boss true))

boss_resolves :
    (get_current_user issued read_digit (some (codes "token")) (begin (staff true))).0
    ≡ ok resolved_boss
unfolding get_current_user access_claims claim_or is_true as_string scalar_as_string non_empty strip
    hydrate
boss_resolves = refl

-- A deactivated admin is no local user any more, and passes as an admin by the role of the token.
deactivated_admin :
    is_ok
      ((get_current_user issued read_digit (some (codes "token")) >>= require_admin)
        (begin (staff false))).0
    ≡ true
unfolding get_current_user access_claims claim_or is_true as_string scalar_as_string non_empty strip
    hydrate caller_of normalize_roles role_texts role_claim_for resolve_role require_admin lower
deactivated_admin = refl

get_current_user-IsLocal_example :
    (resolved_boss.id ≡ none) ⊎ ((u : User) × IsLocal (staff true) u resolved_boss)
get_current_user-IsLocal_example =
    get_current_user-IsLocal read_digit issued (some (codes "token")) resolved_boss
      (begin (staff true)) boss_resolves
