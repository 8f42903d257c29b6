-- ===== src/Tickets/Tests.antt =====
-- Runs of the ticket service on a small database, and its theorems at these inputs.
use zaraamad_portal_be.Base.{
  ℕ, Bool, true, Option, none, some, List, [], ◌∷◌, ◌≡◌, ◌↔◌, refl, ◌⊎◌, find_row, All,
}
use zaraamad_portal_be.Text.{Text, codes}
use zaraamad_portal_be.Http.{ok, raised, http_exception, ticket_invalid_status_transition}
use zaraamad_portal_be.Database.{
  Ticket, TicketStatus, TicketPriority, UserRole, SortOrder, Database, is_role, empty_database,
}
use zaraamad_portal_be.Session.{begin}
use zaraamad_portal_be.Identity.{CurrentUser}
use zaraamad_portal_be.Pagination.{PaginationParams, page_of}
use zaraamad_portal_be.Tickets.{
  allowed_transition, is_resolved_state, get_visible_or_404, ticket_id_of, change_status,
  with_status, TicketCreate,
}
use zaraamad_portal_be.Tickets.Effects.{Refuses, Commits, change_status_outcome, get_visible_iff}
use zaraamad_portal_be.Tickets.Closing.{closed_by, respond_all-closed_by}
use zaraamad_portal_be.Tickets.Steps.{
  Request, change_ticket_status, deactivate_ticket, Step, respond, respond-Step,
}
use zaraamad_portal_be.Tickets.Invariant.{
  IsConsistent, Settled, respond_all, respond_all-IsConsistent, respond_all-Settled,
}
use zaraamad_portal_be.Tickets.Query.{
  SortColumn, Filters, list_tickets, list_tickets-is_listable, is_listable,
}

abbrev caller : ℕ → UserRole → CurrentUser
caller id role = record {
  user_id = codes "7";
  sub = none;
  roles = [];
  security_stamp = none;
  id = some id;
  full_name = none;
  mobile = none;
  role = some role;
  customer_id = none;
  is_active = some true;
}

abbrev boss : CurrentUser
boss = caller 1 UserRole.admin

abbrev guest : CurrentUser
guest = caller 2 UserRole.public

abbrev ticket : ℕ → TicketStatus → Option ℕ → Ticket
ticket id status at = record {
  id = id;
  title = some (codes "printer");
  description = none;
  status = status;
  priority = some TicketPriority.medium;
  created_by_user_id = 2;
  assigned_to_user_id = none;
  status_changed_by_user_id = none;
  resolved_at = at;
  is_active = true;
}

abbrev two_tickets : Database
two_tickets = record empty_database {
  tickets = ticket 10 TicketStatus.in_progress none ∷ ticket 11 TicketStatus.closed (some 5) ∷ [];
}

abbrev accepts : Database → Option Text
accepts d = none

reopening_closed :
    (change_status accepts 9 11 TicketStatus.«open» boss (begin two_tickets)).0
    ≡ raised (http_exception 422 ticket_invalid_status_transition)
unfolding change_status
reopening_closed = refl

respond_all-closed_by_example :
    find_row ticket_id_of 10
      (respond_all accepts
        ((change_ticket_status 8 10 TicketStatus.«open», boss)
          ∷ (change_ticket_status 9 10 TicketStatus.closed, boss)
          ∷ [])
        two_tickets).tickets
    ≡ some (closed_by 9 1 (ticket 10 TicketStatus.in_progress none))
respond_all-closed_by_example =
    respond_all-closed_by accepts (λ d. refl) 1 boss refl refl 8 9 10
      (ticket 10 TicketStatus.in_progress none) two_tickets refl refl

change_status_outcome_example :
    Refuses two_tickets (change_status accepts 9 10 TicketStatus.resolved boss (begin two_tickets))
    ⊎ ((t : Ticket) × (actor : ℕ) × (boss.id ≡ some actor)
        × (is_role boss.role UserRole.admin ≡ true)
        × (allowed_transition t.status TicketStatus.resolved ≡ true)
        × Commits two_tickets boss 10
            (with_status 9 actor TicketStatus.resolved)
            t
            (change_status accepts 9 10 TicketStatus.resolved boss (begin two_tickets)))
change_status_outcome_example =
    change_status_outcome accepts 9 10 TicketStatus.resolved boss two_tickets

abbrev requests : List (Request × CurrentUser)
requests =
    (change_ticket_status 9 10 TicketStatus.resolved, boss)
    ∷ (change_ticket_status 12 11 TicketStatus.«open», boss)
    ∷ (deactivate_ticket 11, guest)
    ∷ (deactivate_ticket 10, boss)
    ∷ []

respond-Step_example : Step two_tickets (respond accepts (deactivate_ticket 10) boss two_tickets)
respond-Step_example = respond-Step accepts (deactivate_ticket 10) boss two_tickets

respond_all-IsConsistent_example :
    All IsConsistent (respond_all accepts requests two_tickets).tickets
unfolding is_resolved_state
respond_all-IsConsistent_example =
    respond_all-IsConsistent accepts requests two_tickets (refl, (refl, tt))

respond_all-Settled_example :
    (u : Ticket) × (find_row ticket_id_of 11 (respond_all accepts requests two_tickets).tickets
      ≡ some u)
    × Settled (ticket 11 TicketStatus.closed (some 5)) u
respond_all-Settled_example =
    respond_all-Settled accepts requests 11 (ticket 11 TicketStatus.closed (some 5)) two_tickets
      refl

abbrev contains : Text → Option Text → Bool
contains pattern text = true

abbrev no_filter : Filters
no_filter = record {
  status_filter = none;
  priority_filter = none;
  created_by_user_id = some 99;
  assigned_to_user_id = none;
  search = none;
}

abbrev as_stored : SortColumn → SortOrder → List Ticket → List Ticket
as_stored c o ts = ts

abbrev first_page : PaginationParams
first_page = record { page = 1; page_size = 20 }

list_tickets-is_listable_example :
    All
      (λ t. is_listable guest t ≡ true)
      (ticket 10 TicketStatus.in_progress none ∷ ticket 11 TicketStatus.closed (some 5) ∷ [])
unfolding list_tickets page_of
list_tickets-is_listable_example =
    list_tickets-is_listable contains as_stored (λ c o ts p. refl) no_filter SortColumn.id
      SortOrder.asc first_page guest
      (two_tickets.tickets, record { total_count = 2; page = 1; page_size = 20 })
      (begin two_tickets) refl

get_visible_iff_example :
    ((get_visible_or_404 10 guest (begin two_tickets)).0
      ≡ ok (ticket 10 TicketStatus.in_progress none))
    ↔ ((find_row ticket_id_of 10 two_tickets.tickets
          ≡ some (ticket 10 TicketStatus.in_progress none))
        × ((ticket 10 TicketStatus.in_progress none).is_active ≡ true)
        × ((is_role guest.role UserRole.admin ≡ true) ⊎ (guest.id ≡ some 2)))
get_visible_iff_example =
    get_visible_iff 10 guest (ticket 10 TicketStatus.in_progress none) (begin two_tickets)

abbrev request_dto : TicketCreate
request_dto = record {
  title = codes "printer";
  description = none;
  priority = TicketPriority.low;
  assigned_to_user_id = none;
}
