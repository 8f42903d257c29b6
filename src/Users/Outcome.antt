-- ===== src/Users/Outcome.antt =====
-- What each operation on users does, branch by branch, and that all of them keep every user's profile
-- fitting their role.
use zaraamad_portal_be.Base.{
  ℕ, Option, none, some, [], ◌∷◌, ◌++◌, ◌≡◌, refl, sym, ap, ◌∙◌, ◌⊎◌, inl, inr, arith, find_row,
  update_row, update_row_found, set_or_keep, Option-cases,
}
use zaraamad_portal_be.Text.{Text}
use zaraamad_portal_be.Http.{Result, ok}
use zaraamad_portal_be.Database.{User, UserRole, Database}
use zaraamad_portal_be.Session.{Session, begin}
use zaraamad_portal_be.Password.{Hashing, hash_password}
use zaraamad_portal_be.Users.{
  Profile, user_id_of, resolve_profile, UserCreate, UserUpdate, new_user, with_update, deactivated,
  hash_given, or_else, create, update, deactivate,
}
use zaraamad_portal_be.Users.Roles.{resolve_profile-fits_role, put_users, Refuses, Result-cases}

resolve_profile-state :
    (role : Option UserRole) (customer_id : Option ℕ) (name kind : Option Text) (s : Session)
    → (resolve_profile role customer_id name kind s).1 ≡ s
resolve_profile-state role customer_id name kind s =
    (resolve_profile-fits_role role customer_id name kind s).0

hash_given_lem :
    (hashing : Hashing) (salt : Text) (password : Option Text) (s : Session)
    → (hash_given hashing salt password s).1 ≡ s
unfolding hash_given
hash_given_lem hashing salt none s = refl
hash_given_lem hashing salt (some password) s = ground arith

-- The stored password behind an update: the one from before where the request gives none or an empty
-- one, and else the hash of the given one.
abbrev pub Stores : Hashing → Text → Option (Option Text) → Option Text → Option Text → Type 0
Stores hashing salt none old new = new ≡ old
Stores hashing salt (some none) old new = new ≡ old
Stores hashing salt (some (some [])) old new = new ≡ old
Stores hashing salt (some (some (c ∷ text))) old new =
    (hashed : Text) × (hash_password hashing salt (c ∷ text) ≡ some hashed) × (new ≡ some hashed)

hash_given-Stores :
    (hashing : Hashing) (salt : Text) (given : Option (Option Text)) (old : Option Text)
    (s : Session) {password : Option Text}
    → (hash_given hashing salt (set_or_keep given none) s).0 ≡ ok password
    → Stores hashing salt given old (or_else password old)
unfolding hash_given
hash_given-Stores hashing salt none old s e = ground (arith, e)
hash_given-Stores hashing salt (some none) old s e = ground (arith, e)
hash_given-Stores hashing salt (some (some [])) old s e = ground (arith, e)
hash_given-Stores hashing salt (some (some (c ∷ text))) old s {password} e =
    elim (Option-cases (hash_password hashing salt (c ∷ text))) [
      | inl fails ↦ absurd (ground (arith, e))
      | inr (hashed, is) ↦
          let same : some hashed ≡ password = ground (arith, e) in
          (hashed, is, ap (λ o. or_else o old) (sym same))
    ]

-- The row of the user behind an update.
pub record IsUpdated (hashing : Hashing) (salt : Text) (dto : UserUpdate) (p : Profile) (u v : User)
    : Type 0 where
  pub same_id : v.id ≡ u.id
  pub full_name : v.full_name ≡ set_or_keep dto.full_name u.full_name
  pub mobile : v.mobile ≡ set_or_keep dto.mobile u.mobile
  pub is_active : v.is_active ≡ set_or_keep dto.is_active u.is_active
  pub role : v.role ≡ set_or_keep dto.role u.role
  pub customer_id : v.customer_id ≡ p.customer_id
  pub organization_name : v.organization_name ≡ p.organization_name
  pub organization_type : v.organization_type ≡ p.organization_type
  pub password : Stores hashing salt dto.password u.password v.password

module _ (violation : Database → Option Text) (hashing : Hashing) where
  -- A creation either raises and leaves the database alone, or the policy gave a profile for the role,
  -- and the new user with it is returned and appended to the rows.
  pub create_user_outcome :
      (salt : Text) (new_id : ℕ) (dto : UserCreate) (d : Database)
      → let (r, s) = create violation hashing salt new_id dto (begin d) in
        Refuses d (r, s)
        ⊎ ((p : Profile) × (password : Option Text) × ((resolve_profile
                (some dto.role)
                dto.customer_id
                dto.organization_name
                dto.organization_type
                (begin d)).0
              ≡ ok p)
            × (r ≡ ok (new_user new_id dto p password))
            × (s.committed ≡ put_users d (d.users ++ new_user new_id dto p password ∷ [])))
  unfolding create
  create_user_outcome salt new_id dto d =
      elim (Result-cases
        (resolve_profile (some dto.role) dto.customer_id dto.organization_name dto.organization_type
          (begin d)).0) [
            | inr (e, refused) ↦ inl (
                ground (
                  arith,
                  resolve_profile-state (some dto.role) dto.customer_id dto.organization_name
                      dto.organization_type (begin d),
                ))
            | inl (p, resolved) ↦
                elim (Result-cases (hash_given hashing salt dto.password (begin d)).0) [
                  | inr (e, refused) ↦ inl (
                      ground (
                        arith,
                        resolve_profile-state (some dto.role) dto.customer_id dto.organization_name
                            dto.organization_type (begin d),
                        hash_given_lem hashing salt dto.password (begin d),
                      ))
                  | inl (password, hashed) ↦ ground (
                    arith,
                    resolve_profile-state (some dto.role) dto.customer_id dto.organization_name
                        dto.organization_type (begin d),
                    hash_given_lem hashing salt dto.password (begin d),
                  )
                ]
          ]

  -- What `update` resolves: each field that the request leaves unset is the user's.
  abbrev pub target_profile : UserUpdate → User → Session → Result Profile × Session
  target_profile dto u =
      resolve_profile (set_or_keep dto.role u.role) (set_or_keep dto.customer_id u.customer_id)
        (set_or_keep dto.organization_name u.organization_name)
        (set_or_keep dto.organization_type u.organization_type)

  target_profile-state :
      (dto : UserUpdate) (u : User) (s : Session) → (target_profile dto u s).1 ≡ s
  target_profile-state dto u s =
      resolve_profile-state (set_or_keep dto.role u.role)
        (set_or_keep dto.customer_id u.customer_id)
        (set_or_keep dto.organization_name u.organization_name)
        (set_or_keep dto.organization_type u.organization_type) s

  pub update_lem :
      (salt : Text) (k : ℕ) (dto : UserUpdate) (d : Database)
      → let (r, s) = update violation hashing salt k dto (begin d) in
        Refuses d (r, s)
        ⊎ ((u : User) × (p : Profile) × (password : Option Text) × (find_row user_id_of k d.users
              ≡ some u)
            × ((target_profile dto u (begin d)).0 ≡ ok p)
            × ((hash_given hashing salt (set_or_keep dto.password none) (begin d)).0 ≡ ok password)
            × (r ≡ ok (with_update dto p password u))
            × (s.committed
                ≡ put_users d (update_row user_id_of k (with_update dto p password) d.users)))
  unfolding update
  update_lem salt k dto d = elim (Option-cases (find_row user_id_of k d.users)) [
    | inl missing ↦ inl (ground arith)
    | inr (u, found) ↦
        elim (Result-cases (hash_given hashing salt (set_or_keep dto.password none) (begin d)).0) [
          | inr (e, refused) ↦ inl (
              ground (arith, hash_given_lem hashing salt (set_or_keep dto.password none) (begin d)))
          | inl (password, hashed) ↦ elim (Result-cases (target_profile dto u (begin d)).0) [
            | inr (e, refused) ↦ inl (
                ground (
                  arith,
                  target_profile-state dto u (begin d),
                  hash_given_lem hashing salt (set_or_keep dto.password none) (begin d),
                ))
            | inl (p, resolved) ↦ ground (
              arith,
              target_profile-state dto u (begin d),
              hash_given_lem hashing salt (set_or_keep dto.password none) (begin d),
            )
          ]
        ]
  ]

  -- An update either raises and leaves the database alone, or the user exists, the policy gave a
  -- profile for the role and the fields that the update aims at, and exactly this user's row is
  -- replaced, by the one that is returned: with the fields that are set, the profile, and the hash
  -- of a password that is given and not empty, and else what it was.
  pub update_user_outcome :
      (salt : Text) (k : ℕ) (dto : UserUpdate) (d : Database)
      → let (r, s) = update violation hashing salt k dto (begin d) in
        Refuses d (r, s)
        ⊎ ((u : User) × (p : Profile) × (v : User) × (find_row user_id_of k d.users ≡ some u)
            × ((target_profile dto u (begin d)).0 ≡ ok p)
            × IsUpdated hashing salt dto p u v
            × (r ≡ ok v)
            × (s.committed ≡ put_users d (update_row user_id_of k (λ _. v) d.users)))
  unfolding with_update
  update_user_outcome salt k dto d = elim (update_lem salt k dto d) [
    | inl refused ↦ inl refused
    | inr (u, p, password, found, resolved, hashed, returned, stored) ↦ inr (
      u,
      p,
      with_update dto p password u,
      found,
      resolved,
      record {
        same_id = refl;
        full_name = refl;
        mobile = refl;
        is_active = refl;
        role = refl;
        customer_id = refl;
        organization_name = refl;
        organization_type = refl;
        password = hash_given-Stores hashing salt dto.password u.password (begin d) hashed;
      },
      returned,
      stored
          ∙ ap (put_users d)
              (update_row_found user_id_of k (with_update dto p password) d.users found),
    )
  ]

  pub deactivate_user_outcome :
      (k : ℕ) (d : Database)
      → let (r, s) = deactivate violation hashing k (begin d) in
        Refuses d (r, s)
        ⊎ ((u : User) × (find_row user_id_of k d.users ≡ some u)
            × (r ≡ ok (deactivated u))
            × (s.committed ≡ put_users d (update_row user_id_of k deactivated d.users)))
  unfolding deactivate
  deactivate_user_outcome k d = elim (Option-cases (find_row user_id_of k d.users)) [
    | inl missing ↦ inl (ground arith)
    | inr (u, found) ↦ ground arith
  ]
