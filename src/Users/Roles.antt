-- ===== src/Users/Roles.antt =====
-- Which profile a user of each role has, and that every operation that writes users keeps to it.
use zaraamad_portal_be.Base.{
  ℕ, Bool, true, false, not, ◌&&◌, Option, none, some, List, ◌≡◌, refl, ◌⊎◌, inl, inr, arith,
  if◌then◌else◌, is_some, Option-cases,
}
use zaraamad_portal_be.Text.{Text, is_empty}
use zaraamad_portal_be.Http.{Exception, Result, ok, raised, is_ok}
use zaraamad_portal_be.Database.{User, UserRole, Database, is_role}
use zaraamad_portal_be.Session.{Session}
use zaraamad_portal_be.Users.{Profile, is_active_customer, stripped, resolve_profile}

abbrev pub filled : Option Text → Bool
filled none = false
filled (some s) = not (is_empty s)

-- An admin has no customer and no organization, a public user has both names of an organization and
-- no customer, and the others have a customer and no organization.
unfoldable pub fits_role : Option UserRole → Profile → Bool
fits_role role p =
    if is_role role UserRole.public
    then not (is_some p.customer_id) && (filled p.organization_name && filled p.organization_type)
    else not (is_some p.organization_name)
      && (not (is_some p.organization_type)
          && (if is_role role UserRole.admin
              then not (is_some p.customer_id)
              else is_some p.customer_id))

abbrev pub profile_of : User → Profile
profile_of u = record {
  customer_id = u.customer_id;
  organization_name = u.organization_name;
  organization_type = u.organization_type;
}

abbrev pub HasProfile : User → Type 0
HasProfile u = fits_role u.role (profile_of u) ≡ true

filled-stripped : (t : Option Text) {s : Text} → stripped t ≡ some s → filled (some s) ≡ true
unfolding stripped
filled-stripped none h = cc
filled-stripped (some t) h = ground arith

Roles-cases :
    (r : Option UserRole)
    → (is_role r UserRole.public ≡ true) × (is_role r UserRole.admin ≡ false)
      ⊎ (is_role r UserRole.public ≡ false)
Roles-cases none = inr refl
Roles-cases (some UserRole.admin) = inr refl
Roles-cases (some UserRole.customer) = inr refl
Roles-cases (some UserRole.public) = inl (refl, refl)

-- The policy leaves the session alone, and a profile that it returns fits the role and has no customer
-- but an active one.
pub resolve_profile-fits_role :
    (role : Option UserRole) (customer_id : Option ℕ) (name kind : Option Text) (s : Session)
    → ((resolve_profile role customer_id name kind s).1 ≡ s)
      × ((p : Profile)
          → (resolve_profile role customer_id name kind s).0 ≡ ok p
          → (fits_role role p ≡ true)
            × ((c : ℕ) → p.customer_id ≡ some c → is_active_customer s.current c ≡ true))
unfolding resolve_profile fits_role
resolve_profile-fits_role role customer_id name kind s = elim (Option-cases (stripped name)) [
  | inl no_name ↦ (
    ground arith,
    λ p h. (ground (arith, Roles-cases role), λ c k. ground (arith, Roles-cases role)),
  )
  | inr (n, e) ↦ elim (Option-cases (stripped kind)) [
    | inl no_kind ↦ (
      ground arith,
      λ p h. (ground (arith, Roles-cases role), λ c k. ground (arith, Roles-cases role)),
    )
    | inr (k, f) ↦ (
      ground arith,
      λ p h. (
        ground (arith, Roles-cases role, filled-stripped name e, filled-stripped kind f),
        λ c same. ground (arith, Roles-cases role),
      ),
    )
  ]
]

abbrev pub put_users : Database → List User → Database
put_users d users = record d { users = users }

abbrev pub Refuses : Database → Result User × Session → Type 0
Refuses d (r, s) = (is_ok r ≡ false) × (s.committed ≡ d)

pub Result-cases :
    {A : Type 0} (r : Result A) → ((a : A) × (r ≡ ok a)) ⊎ ((e : Exception) × (r ≡ raised e))
Result-cases (ok a) = inl (a, refl)
Result-cases (raised e) = inr (e, refl)
