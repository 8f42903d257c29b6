-- ===== src/Catalog/Selecting.antt =====
-- Who may store a selection snapshot for whom, by `create` of
-- `CustomerServiceSelectionSnapshotService` in app/modules/service_catalog/service.py.
use zaraamad_portal_be.Base.{
  ℕ, Bool, true, false, not, ◌&&◌, ◌==◌, Option, none, some, [], ◌∷◌, ◌++◌, ◌≡◌, refl, ap, arith,
  ◌⊎◌, inl, inr, find_row, key-find_row, eq_some,
}
use zaraamad_portal_be.Text.{Text}
use zaraamad_portal_be.Database.{User, UserRole, Database, is_role}
use zaraamad_portal_be.Session.{Session, begin, fail_if, commit_or_rollback}
use zaraamad_portal_be.Session.Ends.{
  Ends, Ends-ok, Ends-bind, Ends-fail_if, Ends-reads, Ends-provided, Ends-modify,
  Ends-commit_or_rollback, Checks, Ends-checks,
}
use zaraamad_portal_be.Identity.{CurrentUser}
use zaraamad_portal_be.Access.{has_access, validate_customer_access}
use zaraamad_portal_be.Users.{user_id_of}
use zaraamad_portal_be.Catalog.Lookup.{
  user_is_active, get_active_customer_or_404, get_active_for_customer_snapshot_or_422,
}
use zaraamad_portal_be.Catalog.Outcome.{HasActive, active_customer_lem, access_lem}
use zaraamad_portal_be.Catalog.Snapshots.{
  CustomerServiceSelectionSnapshotCreate, new_snapshot, snapshot_refused, create_snapshot,
}

-- The user is active, and belongs to the customer if they are a customer user.
abbrev pub MaySelect : Database → ℕ → ℕ → User → Type 0
MaySelect d user_id customer_id u =
    (find_row user_id_of user_id d.users ≡ some u)
    × (user_is_active u ≡ true)
    × ((is_role u.role UserRole.customer && not (eq_some u.customer_id customer_id)) ≡ false)

snapshot_user_lem :
    (user_id customer_id : ℕ) (s : Session)
    → Checks
        (get_active_for_customer_snapshot_or_422 user_id customer_id)
        s
        (MaySelect s.current user_id customer_id)
unfolding get_active_for_customer_snapshot_or_422
snapshot_user_lem user_id customer_id s = record {
  checks =
      Ends-reads (λ d. find_row user_id_of user_id d.users) _ s
        (Ends-provided user_is_active (find_row user_id_of user_id s.current.users) 422 _ _ s
          (λ u found active.
            Ends-bind
              (fail_if (is_role u.role UserRole.customer && not (eq_some u.customer_id customer_id))
                422 _)
              _ s
              (Ends-fail_if
                (is_role u.role UserRole.customer && not (eq_some u.customer_id customer_id)) 422 _
                s (λ fits. Ends-ok (refl, (found, active, fits))) refl))
          refl);
}

own_or_admin :
    (is_admin : Bool) (caller : Option ℕ) (target wanted : ℕ)
    → target ≡ wanted
    → (not is_admin && not (eq_some caller target)) ≡ false
    → (is_admin ≡ true) ⊎ (caller ≡ some wanted)
own_or_admin true caller target wanted same h = inl refl
own_or_admin false none target wanted same h = cc
own_or_admin false (some c) target wanted same h = inr (ground arith)

-- A snapshot is refused and nothing is stored, or it is for the customer of the path, who is active
-- and whom the caller may act for, and for a user who may select for them; a caller who is not an
-- admin stores it for themselves. Then exactly this snapshot is added.
pub create_snapshot_outcome :
    (violation : Database → Option Text) (now new_id k : ℕ)
    (dto : CustomerServiceSelectionSnapshotCreate) (user : CurrentUser) (d : Database)
    → Ends
        (create_snapshot violation now new_id k dto user (begin d))
        (λ x t.
          (x ≡ new_snapshot now new_id dto.user_id dto)
          × (dto.customer_id ≡ k)
          × HasActive d dto.customer_id
          × (has_access user dto.customer_id ≡ true)
          × ((u : User) × MaySelect d dto.user_id dto.customer_id u)
          × ((is_role user.role UserRole.admin ≡ true) ⊎ (user.id ≡ some dto.user_id))
          × (t.committed ≡ record d { snapshots = d.snapshots ++ x ∷ [] }))
        (λ e t. t.committed ≡ d)
unfolding create_snapshot
create_snapshot_outcome violation now new_id k dto user d =
    Ends-bind (fail_if (not (dto.customer_id == k)) 422 _) _ (begin d) (
      Ends-fail_if (not (dto.customer_id == k)) 422 _ (begin d)
        (λ same.
          let is : dto.customer_id ≡ k = ground arith in
          Ends-checks (get_active_customer_or_404 dto.customer_id) _ (begin d)
            (active_customer_lem dto.customer_id (begin d))
            (λ _ active.
              Ends-checks (validate_customer_access user dto.customer_id) _ (begin d)
                (access_lem user dto.customer_id (begin d))
                (λ _ allowed.
                  Ends-checks (get_active_for_customer_snapshot_or_422 dto.user_id dto.customer_id)
                    _ (begin d) (snapshot_user_lem dto.user_id dto.customer_id (begin d))
                    (λ u may.
                      let id : u.id ≡ dto.user_id =
                        key-find_row user_id_of dto.user_id d.users may.0 in
                      let x = new_snapshot now new_id u.id dto in
                      let add : Database → Database =
                        λ e. record e { snapshots = e.snapshots ++ x ∷ [] } in
                      Ends-bind
                        (fail_if
                          (not (is_role user.role UserRole.admin) && not (eq_some user.id u.id)) 422
                          _)
                        _ (begin d)
                        (Ends-fail_if
                          (not (is_role user.role UserRole.admin) && not (eq_some user.id u.id)) 422
                          _ (begin d)
                          (λ own. Ends-modify add _ (begin d) (
                            Ends-bind (commit_or_rollback violation snapshot_refused) _
                              (record { committed = d; current = add d })
                              (Ends-commit_or_rollback violation snapshot_refused
                                (record { committed = d; current = add d })
                                (Ends-ok (
                                  ap (λ j. new_snapshot now new_id j dto) id,
                                  is,
                                  active,
                                  allowed,
                                  (u, may),
                                  own_or_admin (is_role user.role UserRole.admin) user.id u.id
                                      dto.user_id id own,
                                  refl,
                                ))
                                (λ text. refl))))
                          refl))
                    (λ e. refl))
                (λ e. refl))
            (λ e. refl))
        refl)
