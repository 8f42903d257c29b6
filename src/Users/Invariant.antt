-- ===== src/Users/Invariant.antt =====
-- Every request that writes users, public sign up included, keeps each user's profile fitting their
-- role.
use zaraamad_portal_be.Base.{
  ℕ, true, false, Option, some, List, [], ◌∷◌, ◌++◌, ◌≡◌, refl, sym, ◌⊎◌, inl, inr, arith,
  set_or_keep, All, All-update_row, All-find_row,
}
use mathlib.Core.Path.{subst}
use zaraamad_portal_be.Text.{Text, is_empty}
use zaraamad_portal_be.Database.{User, UserRole, Database}
use zaraamad_portal_be.Session.{begin}
use zaraamad_portal_be.Password.{Hashing}
use zaraamad_portal_be.Auth.{PublicSignUpCreate, sign_up_public, new_public_user}
use zaraamad_portal_be.Users.{
  Profile, user_id_of, UserCreate, UserUpdate, new_user, with_update, deactivated, create, update,
  deactivate,
}
use zaraamad_portal_be.Users.Roles.{fits_role, HasProfile, resolve_profile-fits_role, put_users}
use zaraamad_portal_be.Users.Outcome.{create_user_outcome, update_lem, deactivate_user_outcome}

-- `min_length=1` of the fields of app/modules/auth/dtos.py.
abbrev pub IsValid : PublicSignUpCreate → Type 0
IsValid dto = (is_empty dto.organization_name ≡ false) × (is_empty dto.organization_type ≡ false)

pub data UserRequest : Type 0 where
  create_user : Text → ℕ → UserCreate → UserRequest
  update_user : Text → ℕ → UserUpdate → UserRequest
  deactivate_user : ℕ → UserRequest
  sign_up : (new_id : ℕ) (dto : PublicSignUpCreate) → IsValid dto → UserRequest

All-snoc : (P : User → Type 0) (xs : List User) (x : User) → All P xs → P x → All P (xs ++ x ∷ [])
All-snoc P [] x h p = (p, tt)
All-snoc P (y ∷ ys) x h p = (h.0, All-snoc P ys x h.1 p)

module _ (violation : Database → Option Text)
    (create_access_token : ℕ → Option Text → Option UserRole → Text) (hashing : Hashing) where
  sign_up-outcome :
      (new_id : ℕ) (dto : PublicSignUpCreate) (d : Database)
      → let after =
          (sign_up_public violation create_access_token new_id dto (begin d)).1.committed in
        (after ≡ d) ⊎ (after ≡ put_users d (d.users ++ new_public_user new_id dto ∷ []))
  unfolding sign_up_public
  sign_up-outcome new_id dto d = ground arith

  new_public_user-HasProfile :
      (new_id : ℕ) (dto : PublicSignUpCreate)
      → IsValid dto
      → HasProfile (new_public_user new_id dto)
  unfolding fits_role new_public_user
  new_public_user-HasProfile new_id dto v = rw (v.0, v.1) refl

  new_user-HasProfile :
      (new_id : ℕ) (dto : UserCreate) (p : Profile) (password : Option Text)
      → fits_role (some dto.role) p ≡ true
      → HasProfile (new_user new_id dto p password)
  unfolding new_user
  new_user-HasProfile new_id dto p password h = h

  with_update-HasProfile :
      (dto : UserUpdate) (p : Profile) (password : Option Text) (u : User)
      → fits_role (set_or_keep dto.role u.role) p ≡ true
      → HasProfile (with_update dto p password u)
  unfolding with_update
  with_update-HasProfile dto p password u h = h

  deactivated-HasProfile : (u : User) → HasProfile u → HasProfile (deactivated u)
  unfolding deactivated
  deactivated-HasProfile u h = h

  -- What the requests leave committed.
  unfoldable pub write_users : UserRequest → Database → Database
  write_users (create_user salt new_id dto) d =
      (create violation hashing salt new_id dto (begin d)).1.committed
  write_users (update_user salt k dto) d =
      (update violation hashing salt k dto (begin d)).1.committed
  write_users (deactivate_user k) d = (deactivate violation hashing k (begin d)).1.committed
  write_users (sign_up new_id dto _) d =
      (sign_up_public violation create_access_token new_id dto (begin d)).1.committed

  UsersFit : Database → Type 0
  UsersFit d = All HasProfile d.users

  -- If the profile of every user fits their role, then so it is after a creation, an update, a
  -- deactivation or a public sign up, whatever the request says and whether or not it is refused.
  pub write_users-HasProfile :
      (r : UserRequest) (d : Database)
      → All HasProfile d.users
      → All HasProfile (write_users r d).users
  unfolding write_users UsersFit
  write_users-HasProfile (create_user salt new_id dto) d h =
      elim (create_user_outcome violation hashing salt new_id dto d) [
        | inl (_, same) ↦ subst UsersFit (sym same) h
        | inr (p, password, resolved, _, same) ↦ subst UsersFit (sym same) (
            All-snoc HasProfile d.users (new_user new_id dto p password) h (
              new_user-HasProfile new_id dto p password
                ((resolve_profile-fits_role (some dto.role) dto.customer_id dto.organization_name
                    dto.organization_type (begin d)).1
                  p resolved).0))
      ]
  write_users-HasProfile (update_user salt k dto) d h =
      elim (update_lem violation hashing salt k dto d) [
        | inl (_, same) ↦ subst UsersFit (sym same) h
        | inr (u, p, password, found, resolved, _, _, same) ↦ subst UsersFit (sym same) (
            All-update_row user_id_of HasProfile k (with_update dto p password) d.users h found (
              with_update-HasProfile dto p password u
                ((resolve_profile-fits_role (set_or_keep dto.role u.role)
                    (set_or_keep dto.customer_id u.customer_id)
                    (set_or_keep dto.organization_name u.organization_name)
                    (set_or_keep dto.organization_type u.organization_type) (begin d)).1
                  p resolved).0))
      ]
  write_users-HasProfile (deactivate_user k) d h =
      elim (deactivate_user_outcome violation hashing k d) [
        | inl (_, same) ↦ subst UsersFit (sym same) h
        | inr (u, found, _, same) ↦ subst UsersFit (sym same) (
            All-update_row user_id_of HasProfile k deactivated d.users h found
              (deactivated-HasProfile u (All-find_row user_id_of HasProfile k d.users h found)))
      ]
  write_users-HasProfile (sign_up new_id dto v) d h = elim (sign_up-outcome new_id dto d) [
    | inl same ↦ subst UsersFit (sym same) h
    | inr same ↦ subst UsersFit (sym same) (
        All-snoc HasProfile d.users (new_public_user new_id dto) h
          (new_public_user-HasProfile new_id dto v))
  ]
