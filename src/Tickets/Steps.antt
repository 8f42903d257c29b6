-- ===== src/Tickets/Steps.antt =====
-- The life of a ticket as a relation between databases, apart from the code: which edits a ticket
-- can undergo, and that every request of `TicketService` commits one such step or nothing.
-- The life of a ticket as a relation between databases, apart from the code: which edits a ticket
-- can undergo, and that every request of `TicketService` commits one such step or nothing.
use zaraamad_portal_be.Base.{
  ℕ, true, false, Option, some, [], ◌∷◌, ◌++◌, ◌≡◌, refl, sym, inl, inr, arith, find_row,
  update_row, is_some, ◌↔◌,
}
use mathlib.Core.Path.{subst}
use zaraamad_portal_be.Text.{Text}
use zaraamad_portal_be.Http.{Result}
use zaraamad_portal_be.Database.{Ticket, TicketStatus, TicketPriority, Database}
use zaraamad_portal_be.Session.{Session, Action, begin}
use zaraamad_portal_be.Identity.{CurrentUser}
use zaraamad_portal_be.Tickets.{
  allowed_transition, is_resolved_state, ticket_id_of, TicketCreate, TicketUpdate, new_ticket,
  with_update, with_status, with_assignee, deactivated, create, update, change_status, assign,
  deactivate,
}
use zaraamad_portal_be.Tickets.Effects.{
  put_tickets, Refuses, Commits, update_outcome, change_status_outcome, assign_outcome,
  deactivate_outcome, create_outcome,
}

-- The edges of the status diagram, apart from the steps that stay where they are.
infix 40 ◌⟶◌
pub data ◌⟶◌ : TicketStatus → TicketStatus → Type 0 where
  start : TicketStatus.«open» ⟶ TicketStatus.in_progress
  resolve_open : TicketStatus.«open» ⟶ TicketStatus.resolved
  close_open : TicketStatus.«open» ⟶ TicketStatus.closed
  reject_open : TicketStatus.«open» ⟶ TicketStatus.rejected
  resolve : TicketStatus.in_progress ⟶ TicketStatus.resolved
  close_started : TicketStatus.in_progress ⟶ TicketStatus.closed
  reject : TicketStatus.in_progress ⟶ TicketStatus.rejected
  close : TicketStatus.resolved ⟶ TicketStatus.closed
  resume : TicketStatus.resolved ⟶ TicketStatus.in_progress
  reopen : TicketStatus.rejected ⟶ TicketStatus.«open»
  stay : {s : TicketStatus} → s ⟶ s

ruleset edges = (
  start, resolve_open, close_open, reject_open, resolve, close_started, reject, close, resume,
  reopen, stay,
)

allowed_transition-⟶ : (s t : TicketStatus) → allowed_transition s t ≡ true → s ⟶ t
unfolding allowed_transition
allowed_transition-⟶ s t h = grind (arith, edges)

allowed_transition_refl : (s : TicketStatus) → allowed_transition s s ≡ true
unfolding allowed_transition
allowed_transition_refl s = ground arith

⟶-allowed_transition : {s t : TicketStatus} → s ⟶ t → allowed_transition s t ≡ true
unfolding allowed_transition
⟶-allowed_transition start = refl
⟶-allowed_transition (stay {s}) = allowed_transition_refl s
⟶-allowed_transition _ = refl

-- The table of the code allows exactly the edges of the relation `⟶`.
pub allowed_transition_iff : (s t : TicketStatus) → (allowed_transition s t ≡ true) ↔ (s ⟶ t)
allowed_transition_iff s t = (allowed_transition-⟶ s t, ⟶-allowed_transition)

-- What may happen to one ticket.
pub data Edit (t : Ticket) : Ticket → Type 0 where
  described :
      (title description : Option Text) (priority : Option TicketPriority)
      → Edit t (record t { title = title; description = description; priority = priority })
  moved :
      (target : TicketStatus) (actor : ℕ) (at : Option ℕ)
      → t.status ⟶ target
      → is_some at ≡ is_resolved_state target
      → Edit t
          (record t { status = target; status_changed_by_user_id = some actor; resolved_at = at })
  handed :
      (actor : ℕ) (assignee : Option ℕ)
      → Edit t (record t { assigned_to_user_id = assignee; status_changed_by_user_id = some actor })
  retired : Edit t (record t { is_active = false })

abbrev pub Keeps : (Ticket → Ticket) → Type 0
Keeps f = (t : Ticket) → ticket_id_of (f t) ≡ ticket_id_of t

-- What a request may commit.
pub data Step (d : Database) : Database → Type 0 where
  idle : Step d d
  opened :
      (new_id actor : ℕ) (dto : TicketCreate)
      → Step d (put_tickets d (d.tickets ++ new_ticket new_id actor dto ∷ []))
  edited :
      (k : ℕ) (f : Ticket → Ticket) {t : Ticket}
      → find_row ticket_id_of k d.tickets ≡ some t
      → t.is_active ≡ true
      → Edit t (f t)
      → Keeps f
      → Step d (put_tickets d (update_row ticket_id_of k f d.tickets))

-- The requests of app/modules/tickets/controller.py that change the database, with the time and
-- the new key that each meets.
pub data Request : Type 0 where
  create_ticket : ℕ → TicketCreate → Request
  update_ticket : ℕ → TicketUpdate → Request
  change_ticket_status : ℕ → ℕ → TicketStatus → Request
  assign_to : ℕ → Option ℕ → Request
  deactivate_ticket : ℕ → Request

Edit-with_update : (dto : TicketUpdate) (t : Ticket) → Edit t (with_update dto t)
unfolding with_update
Edit-with_update dto t = described _ _ _

Edit-with_status :
    (now actor : ℕ) (target : TicketStatus) (t : Ticket)
    → allowed_transition t.status target ≡ true
    → Edit t (with_status now actor target t)
unfolding with_status
Edit-with_status now actor target t h =
    moved target actor _ (allowed_transition-⟶ t.status target h) (ground arith)

Edit-with_assignee :
    (actor : ℕ) (assignee : Option ℕ) (t : Ticket) → Edit t (with_assignee actor assignee t)
unfolding with_assignee
Edit-with_assignee actor assignee t = handed actor assignee

Edit-deactivated : (t : Ticket) → Edit t (deactivated t)
unfolding deactivated
Edit-deactivated t = retired

Keeps-with_update : (dto : TicketUpdate) → Keeps (with_update dto)
unfolding with_update
Keeps-with_update dto t = refl

pub Keeps-with_status :
    (now actor : ℕ) (target : TicketStatus) → Keeps (with_status now actor target)
unfolding with_status
Keeps-with_status now actor target t = refl

Keeps-with_assignee : (actor : ℕ) (assignee : Option ℕ) → Keeps (with_assignee actor assignee)
unfolding with_assignee
Keeps-with_assignee actor assignee t = refl

Keeps-deactivated : Keeps deactivated
unfolding deactivated
Keeps-deactivated t = refl

-- A committed edit is a step.
Commits-Step :
    (k : ℕ) (f : Ticket → Ticket) (t : Ticket) (user : CurrentUser) (d : Database)
    (end : Result Ticket × Session)
    → Commits d user k f t end
    → Edit t (f t)
    → Keeps f
    → Step d end.1.committed
Commits-Step k f t user d end (found, active, _, _, e) edit keeps =
    subst (Step d) (sym e) (edited k f found active edit keeps)

Refuses-Step :
    (d : Database) (end : Result Ticket × Session) → Refuses d end → Step d end.1.committed
Refuses-Step d end (_, e) = subst (Step d) (sym e) idle

module _ (violation : Database → Option Text) where
  pub serve : Request → CurrentUser → Action Ticket
  unfolding create update change_status assign deactivate
  serve (create_ticket new_id dto) user = create violation new_id dto user
  serve (update_ticket k dto) user = update violation k dto user
  serve (change_ticket_status now k target) user = change_status violation now k target user
  serve (assign_to k assignee) user = assign violation k assignee user
  serve (deactivate_ticket k) user = deactivate violation k user

  -- What a request leaves in the database.
  unfoldable pub respond : Request → CurrentUser → Database → Database
  unfolding serve
  respond r user d = (serve r user (begin d)).1.committed

  -- Every request commits one step, whatever it is and whoever sends it.
  pub respond-Step : (r : Request) (user : CurrentUser) (d : Database) → Step d (respond r user d)
  unfolding respond serve
  respond-Step (create_ticket new_id dto) user d =
      elim (create_outcome violation new_id dto user d) [
        | inl no_change ↦ Refuses-Step d (create violation new_id dto user (begin d)) no_change
        | inr (actor, _, _, _, e) ↦ subst (Step d) (sym e) (opened new_id actor dto)
      ]
  respond-Step (update_ticket k dto) user d = elim (update_outcome violation k dto user d) [
    | inl no_change ↦ Refuses-Step d (update violation k dto user (begin d)) no_change
    | inr (t, change) ↦
        Commits-Step k (with_update dto) t user d (update violation k dto user (begin d)) change
          (Edit-with_update dto t) (Keeps-with_update dto)
  ]
  respond-Step (change_ticket_status now k target) user d =
      elim (change_status_outcome violation now k target user d) [
        | inl no_change ↦
            Refuses-Step d (change_status violation now k target user (begin d)) no_change
        | inr (t, actor, _, _, allowed, change) ↦
            Commits-Step k (with_status now actor target) t user d
              (change_status violation now k target user (begin d)) change
              (Edit-with_status now actor target t allowed) (Keeps-with_status now actor target)
      ]
  respond-Step (assign_to k assignee) user d = elim (assign_outcome violation k assignee user d) [
    | inl no_change ↦ Refuses-Step d (assign violation k assignee user (begin d)) no_change
    | inr (t, actor, _, _, _, change) ↦
        Commits-Step k (with_assignee actor assignee) t user d
          (assign violation k assignee user (begin d)) change (Edit-with_assignee actor assignee t)
          (Keeps-with_assignee actor assignee)
  ]
  respond-Step (deactivate_ticket k) user d = elim (deactivate_outcome violation k user d) [
    | inl no_change ↦ Refuses-Step d (deactivate violation k user (begin d)) no_change
    | inr (t, _, _, change) ↦
        Commits-Step k deactivated t user d (deactivate violation k user (begin d)) change
          (Edit-deactivated t) Keeps-deactivated
  ]
