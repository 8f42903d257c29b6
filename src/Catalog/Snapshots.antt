-- ===== src/Catalog/Snapshots.antt =====
-- `CustomerServiceSelectionSnapshotService` of app/modules/service_catalog/service.py, without its
-- list. Times are numbers of seconds, and `now` is the clock's.
use zaraamad_portal_be.Base.{
  ℕ, not, ◌&&◌, ◌==◌, Option, none, some, [], ◌∷◌, ◌++◌, find_row, eq_some,
}
use zaraamad_portal_be.Text.{Text}
use zaraamad_portal_be.Http.{
  Exception, http_exception, customer_id_invalid_or_inactive, user_id_invalid,
  customer_service_selection_snapshot_not_found, data_integrity_error,
}
use zaraamad_portal_be.Database.{UserRole, CustomerServiceSelectionSnapshot, Database, is_role}
use zaraamad_portal_be.Session.{
  Action, pure, reads, fail_if, or_fail, modify, commit_or_rollback, ◌>>=◌, ◌>>◌,
}
use zaraamad_portal_be.Identity.{CurrentUser}
use zaraamad_portal_be.Access.{validate_customer_access}
use zaraamad_portal_be.Users.{customer_id_of, user_id_of}
use zaraamad_portal_be.Catalog.Lookup.{
  get_active_customer_or_404, get_active_for_customer_snapshot_or_422,
}

pub record CustomerServiceSelectionSnapshotCreate : Type 0 where
  pub customer_id : ℕ
  pub user_id : ℕ
  pub payload : Text

pub record CustomerServiceSelectionSnapshotView : Type 0 where
  pub snapshot : CustomerServiceSelectionSnapshot
  pub customer_name : Option Text
  pub user_name : Option Text

abbrev pub snapshot_id_of : CustomerServiceSelectionSnapshot → ℕ
snapshot_id_of x = x.id

unfoldable pub new_snapshot :
    ℕ → ℕ → ℕ → CustomerServiceSelectionSnapshotCreate → CustomerServiceSelectionSnapshot
new_snapshot now new_id user_id dto = record {
  id = new_id;
  customer_id = dto.customer_id;
  user_id = user_id;
  selected_at = now;
  payload = dto.payload;
}

abbrev pub snapshot_refused : Text → Exception
snapshot_refused error_text = http_exception 409 data_integrity_error

-- The row that the joins with the customer and the user make of a snapshot.
abbrev pub join_snapshot :
    Database → CustomerServiceSelectionSnapshot → Option CustomerServiceSelectionSnapshotView
join_snapshot d x = elim (find_row customer_id_of x.customer_id d.customers) [
  | none ↦ none
  | some customer ↦ elim (find_row user_id_of x.user_id d.users) [
    | none ↦ none
    | some user ↦
        some (record { snapshot = x; customer_name = customer.name; user_name = user.full_name })
  ]
]

-- `_get_snapshot_view_or_404`
unfoldable pub get_snapshot_view_or_404 : ℕ → Action CustomerServiceSelectionSnapshotView
get_snapshot_view_or_404 k = do
  row ← reads (λ d. find_row snapshot_id_of k d.snapshots)
  found ← or_fail row 404 customer_service_selection_snapshot_not_found
  view ← reads (λ d. join_snapshot d found)
  or_fail view 404 customer_service_selection_snapshot_not_found

unfoldable pub get_snapshot : ℕ → CurrentUser → Action CustomerServiceSelectionSnapshotView
unfolding get_snapshot_view_or_404
get_snapshot k user = do
  view ← get_snapshot_view_or_404 k
  get_active_customer_or_404 view.snapshot.customer_id
  validate_customer_access user view.snapshot.customer_id
  pure view

module _ (violation : Database → Option Text) where
  unfoldable pub create_snapshot :
      ℕ
      → ℕ
      → ℕ
      → CustomerServiceSelectionSnapshotCreate
      → CurrentUser
      → Action CustomerServiceSelectionSnapshot
  unfolding commit_or_rollback
  create_snapshot now new_id path_customer_id dto user = do
    fail_if (not (dto.customer_id == path_customer_id)) 422 customer_id_invalid_or_inactive
    get_active_customer_or_404 dto.customer_id
    validate_customer_access user dto.customer_id
    target ← get_active_for_customer_snapshot_or_422 dto.user_id dto.customer_id
    fail_if (not (is_role user.role UserRole.admin) && not (eq_some user.id target.id)) 422
        user_id_invalid
    modify (λ d. record d { snapshots = d.snapshots ++ new_snapshot now new_id target.id dto ∷ [] })
    commit_or_rollback violation snapshot_refused
    pure (new_snapshot now new_id target.id dto)
