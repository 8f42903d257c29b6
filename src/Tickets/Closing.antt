-- ===== src/Tickets/Closing.antt =====
-- Every ticket can be closed by the requests of app/modules/tickets/service.py, from whatever status
-- it has.
use zaraamad_portal_be.Base.{
  ℕ, true, false, Option, none, some, [], ◌∷◌, ◌≡◌, refl, ◌∙◌, ap, inl, inr, arith, find_row,
  find_row-update_row_self, update_row, Bool-cases, if◌then◌else◌,
}
use zaraamad_portal_be.Text.{Text}
use zaraamad_portal_be.Database.{Ticket, TicketStatus, Database, UserRole}
use zaraamad_portal_be.Identity.{CurrentUser}
use zaraamad_portal_be.Tickets.{allowed_transition, ticket_id_of, with_status, change_status}
use zaraamad_portal_be.Tickets.Effects.{put_tickets}
use zaraamad_portal_be.Tickets.Steps.{change_ticket_status, respond, Keeps-with_status}
use zaraamad_portal_be.Tickets.Invariant.{respond_all}

-- The ticket as an admin closes it: what else it holds stays.
abbrev pub closed_by : ℕ → ℕ → Ticket → Ticket
closed_by now actor t = record t {
  status = TicketStatus.closed;
  status_changed_by_user_id = some actor;
  resolved_at = some now;
}

-- What is left of the ticket after an attempt to set its status.
abbrev attempted : ℕ → ℕ → TicketStatus → Ticket → Ticket
attempted now actor target t =
    if allowed_transition t.status target then with_status now actor target t else t

-- What cannot be opened can be closed.
closes_unless_opens :
    (s : TicketStatus)
    → allowed_transition s TicketStatus.«open» ≡ false
    → allowed_transition s TicketStatus.closed ≡ true
unfolding allowed_transition
closes_unless_opens s h = ground arith

-- The second attempt closes, whether or not the first one opened.
attempted_twice :
    (now later actor : ℕ) (t : Ticket)
    → attempted later actor TicketStatus.closed (attempted now actor TicketStatus.«open» t)
      ≡ closed_by later actor t
unfolding allowed_transition with_status
attempted_twice now later actor t =
    elim (Bool-cases (allowed_transition t.status TicketStatus.«open»)) [
      | inl opens ↦ rw opens refl
      | inr stays ↦ rw (stays, closes_unless_opens t.status stays) refl
    ]

attempted_active :
    (now actor : ℕ) (target : TicketStatus) (t : Ticket)
    → t.is_active ≡ true
    → (attempted now actor target t).is_active ≡ true
unfolding with_status
attempted_active now actor target t h = elim (Bool-cases (allowed_transition t.status target)) [
  | inl allowed ↦ rw allowed h
  | inr refused ↦ rw refused h
]

module _ (violation : Database → Option Text) (accepts : (d : Database) → violation d ≡ none)
    (actor : ℕ) (user : CurrentUser) (has_key : user.id ≡ some actor)
    (is_admin : user.role ≡ some UserRole.admin) where
  attempt_lem :
      (now k : ℕ) (target : TicketStatus) (t : Ticket) (d : Database)
      → find_row ticket_id_of k d.tickets ≡ some t
      → t.is_active ≡ true
      → find_row ticket_id_of k
          (respond violation (change_ticket_status now k target) user d).tickets
        ≡ some (attempted now actor target t)
  unfolding respond change_status
  attempt_lem now k target t d found active =
      let written : Database =
        put_tickets d (update_row ticket_id_of k (with_status now actor target) d.tickets) in
      let kept : find_row ticket_id_of k written.tickets ≡ some (with_status now actor target t) =
        find_row-update_row_self ticket_id_of k (with_status now actor target) d.tickets
          (Keeps-with_status now actor target) found in
      elim (Bool-cases (allowed_transition t.status target)) [
        | inl allowed ↦ ground (arith, kept, accepts written)
        | inr refused ↦ ground arith
      ]

  -- Where the database accepts every change, an admin with a key closes every active ticket by two
  -- requests, to open it and to close it, whatever status it has: it is then closed, by this admin
  -- and at the time of the second request, and else what it was.
  pub respond_all-closed_by :
      (now later k : ℕ) (t : Ticket) (d : Database)
      → find_row ticket_id_of k d.tickets ≡ some t
      → t.is_active ≡ true
      → find_row ticket_id_of k
          (respond_all violation
            ((change_ticket_status now k TicketStatus.«open», user)
              ∷ (change_ticket_status later k TicketStatus.closed, user)
              ∷ [])
            d).tickets
        ≡ some (closed_by later actor t)
  unfolding respond_all
  respond_all-closed_by now later k t d found active =
      let opened = respond violation (change_ticket_status now k TicketStatus.«open») user d in
      attempt_lem later k TicketStatus.closed (attempted now actor TicketStatus.«open» t) opened
        (attempt_lem now k TicketStatus.«open» t d found active)
        (attempted_active now actor TicketStatus.«open» t active)
      ∙ ap some (attempted_twice now later actor t)
