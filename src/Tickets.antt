-- ===== src/Tickets.antt =====
-- app/modules/tickets/service.py: who may see and change a ticket, which status changes are
-- allowed, and the operations of `TicketService` on the rows of the database.
pub mod Effects
pub mod Steps
pub mod Invariant
pub mod Closing
pub mod Query
mod Tests
use zaraamad_portal_be.Base.{
  provided, ℕ, Bool, true, false, not, ◌&&◌, ◌||◌, Option, none, some, List, [], ◌∷◌, ◌++◌, ◌==◌,
  eq_some, if◌then◌else◌, find_row, set_or_keep, update_row,
}
use zaraamad_portal_be.Text.{Text}
use zaraamad_portal_be.Http.{
  Detail, Exception, http_exception, Result, ok, raised, admin_access_required,
  data_integrity_error, local_user_context_required, ticket_access_denied, ticket_assignee_invalid,
  ticket_invalid_status_transition, ticket_not_found,
}
use zaraamad_portal_be.Database.{
  User, Ticket, TicketStatus, TicketPriority, UserRole, Database, truthy, is_role,
}
use zaraamad_portal_be.Session.{
  Session, Action, pure, raise, reads, fail_if, or_fail, modify, commit, commit_or_rollback, ◌>>=◌,
  ◌>>◌,
}
use zaraamad_portal_be.Identity.{CurrentUser}

-- `TicketAccessPolicy`
pub ensure_local_actor : CurrentUser → Action ℕ
ensure_local_actor user = or_fail user.id 403 local_user_context_required

pub ensure_admin : CurrentUser → Action (Unit {0})
ensure_admin user = fail_if (not (is_role user.role UserRole.admin)) 403 admin_access_required

unfoldable pub can_access_ticket : CurrentUser → Ticket → Bool
can_access_ticket user t =
    if is_role user.role UserRole.admin then true else eq_some user.id t.created_by_user_id

pub enforce_ticket_visibility : CurrentUser → Ticket → Action (Unit {0})
unfolding can_access_ticket
enforce_ticket_visibility user t = fail_if (not (can_access_ticket user t)) 403 ticket_access_denied

pub resolve_owner_scope : CurrentUser → Action (Option ℕ)
unfolding ensure_local_actor ◌>>=◌
resolve_owner_scope user =
    if is_role user.role UserRole.admin
    then pure none
    else (do actor ← ensure_local_actor user; pure (some actor))

-- `TicketStatusPolicy`
pub allowed_transition : TicketStatus → TicketStatus → Bool
allowed_transition TicketStatus.«open» _ = true
allowed_transition TicketStatus.in_progress TicketStatus.«open» = false
allowed_transition TicketStatus.in_progress _ = true
allowed_transition TicketStatus.resolved TicketStatus.resolved = true
allowed_transition TicketStatus.resolved TicketStatus.closed = true
allowed_transition TicketStatus.resolved TicketStatus.in_progress = true
allowed_transition TicketStatus.resolved _ = false
allowed_transition TicketStatus.closed TicketStatus.closed = true
allowed_transition TicketStatus.closed _ = false
allowed_transition TicketStatus.rejected TicketStatus.rejected = true
allowed_transition TicketStatus.rejected TicketStatus.«open» = true
allowed_transition TicketStatus.rejected _ = false

pub validate_transition : TicketStatus → TicketStatus → Action (Unit {0})
unfolding allowed_transition
validate_transition now_status target =
    fail_if (not (allowed_transition now_status target)) 422 ticket_invalid_status_transition

pub is_resolved_state : TicketStatus → Bool
is_resolved_state TicketStatus.resolved = true
is_resolved_state TicketStatus.closed = true
is_resolved_state _ = false

-- `now` is `datetime.now(UTC)`.
pub resolve_resolved_at : ℕ → TicketStatus → Option ℕ
unfolding is_resolved_state
resolve_resolved_at now status = if is_resolved_state status then some now else none

abbrev pub user_id_of : User → ℕ
user_id_of u = u.id

abbrev pub ticket_id_of : Ticket → ℕ
ticket_id_of t = t.id

abbrev pub user_is_active : User → Bool
user_is_active u = truthy u.is_active

-- `TicketUserLookupService.get_active_or_422`
pub get_active_or_422 : ℕ → Action User
unfolding ◌>>=◌
get_active_or_422 user_id = do
  found ← reads (λ d. find_row user_id_of user_id d.users)
  or_fail (provided user_is_active found) 422 ticket_assignee_invalid

-- `if assignee is not None: get_active_or_422(assignee)`
pub check_assignee : Option ℕ → Action (Unit {0})
unfolding get_active_or_422 ◌>>=◌
check_assignee none = pure tt
check_assignee (some user_id) = do get_active_or_422 user_id; pure tt

abbrev pub assign_ticket : ℕ → (Ticket → Ticket) → Action (Unit {0})
assign_ticket ticket_id f =
    modify (λ d. record d { tickets = update_row ticket_id_of ticket_id f d.tickets })

pub get_visible_or_404 : ℕ → CurrentUser → Action Ticket
unfolding enforce_ticket_visibility ◌>>=◌
get_visible_or_404 ticket_id user = do
  found ← reads (λ d. find_row ticket_id_of ticket_id d.tickets)
  ticket ← or_fail (provided (λ (t : Ticket). t.is_active) found) 404 ticket_not_found
  enforce_ticket_visibility user ticket
  pure ticket

-- The requests of app/modules/tickets/dtos.py. A field of an update is `none` where the request
-- leaves it unset, and `some none` where it sets it to null.
pub record TicketCreate : Type 0 where
  pub title : Text
  pub description : Option Text
  pub priority : TicketPriority
  pub assigned_to_user_id : Option ℕ

pub record TicketUpdate : Type 0 where
  pub title : Option (Option Text)
  pub description : Option (Option Text)
  pub priority : Option (Option TicketPriority)

-- What each operation assigns to the ticket.
pub new_ticket : ℕ → ℕ → TicketCreate → Ticket
new_ticket new_id actor dto = record {
  id = new_id;
  title = some dto.title;
  description = dto.description;
  status = TicketStatus.«open»;
  priority = some dto.priority;
  created_by_user_id = actor;
  assigned_to_user_id = dto.assigned_to_user_id;
  status_changed_by_user_id = none;
  resolved_at = none;
  is_active = true;
}

pub with_update : TicketUpdate → Ticket → Ticket
with_update dto t = record t {
  title = set_or_keep dto.title t.title;
  description = set_or_keep dto.description t.description;
  priority = set_or_keep dto.priority t.priority;
}

pub with_status : ℕ → ℕ → TicketStatus → Ticket → Ticket
unfolding resolve_resolved_at
with_status now actor target t = record t {
  status = target;
  status_changed_by_user_id = some actor;
  resolved_at = resolve_resolved_at now target;
}

pub with_assignee : ℕ → Option ℕ → Ticket → Ticket
with_assignee actor assignee t = record t {
  assigned_to_user_id = assignee;
  status_changed_by_user_id = some actor;
}

pub deactivated : Ticket → Ticket
deactivated t = record t { is_active = false }

abbrev conflict : Text → Exception
conflict text = http_exception 409 data_integrity_error

-- `TicketService`. `violation` is the database's check at a commit, `new_id` the key that it gives
-- to a new row.
module _ (violation : Database → Option Text) where
  pub commit_with_integrity_guard : Action (Unit {0})
  unfolding commit_or_rollback
  commit_with_integrity_guard = commit_or_rollback violation conflict

  pub create : ℕ → TicketCreate → CurrentUser → Action Ticket
  unfolding ensure_local_actor check_assignee commit_with_integrity_guard new_ticket ◌>>=◌
  create new_id dto user = do
    actor ← ensure_local_actor user
    check_assignee dto.assigned_to_user_id
    modify (λ d. record d { tickets = d.tickets ++ new_ticket new_id actor dto ∷ [] })
    commit_with_integrity_guard
    pure (new_ticket new_id actor dto)

  pub update : ℕ → TicketUpdate → CurrentUser → Action Ticket
  unfolding ensure_local_actor get_visible_or_404 commit_with_integrity_guard with_update ◌>>=◌
  update ticket_id dto user = do
    ensure_local_actor user
    ticket ← get_visible_or_404 ticket_id user
    assign_ticket ticket_id (with_update dto)
    commit_with_integrity_guard
    pure (with_update dto ticket)

  pub change_status : ℕ → ℕ → TicketStatus → CurrentUser → Action Ticket
  unfolding ensure_local_actor ensure_admin get_visible_or_404 validate_transition
      commit_with_integrity_guard with_status
  change_status now ticket_id target user = do
    actor ← ensure_local_actor user
    ensure_admin user
    ticket ← get_visible_or_404 ticket_id user
    validate_transition ticket.status target
    assign_ticket ticket_id (with_status now actor target)
    commit_with_integrity_guard
    pure (with_status now actor target ticket)

  pub assign : ℕ → Option ℕ → CurrentUser → Action Ticket
  unfolding ensure_local_actor ensure_admin get_visible_or_404 check_assignee
      commit_with_integrity_guard with_assignee
  assign ticket_id assignee user = do
    actor ← ensure_local_actor user
    ensure_admin user
    ticket ← get_visible_or_404 ticket_id user
    check_assignee assignee
    assign_ticket ticket_id (with_assignee actor assignee)
    commit_with_integrity_guard
    pure (with_assignee actor assignee ticket)

  -- `deactivate` commits with no handler: a refusal is the `IntegrityError` itself.
  pub deactivate : ℕ → CurrentUser → Action Ticket
  unfolding ensure_local_actor ensure_admin get_visible_or_404 commit deactivated ◌>>=◌
  deactivate ticket_id user = do
    ensure_local_actor user
    ensure_admin user
    ticket ← get_visible_or_404 ticket_id user
    assign_ticket ticket_id deactivated
    commit violation
    pure (deactivated ticket)
