-- ===== src/Tickets/Effects.antt =====
-- What each operation of `TicketService` does, branch by branch: it raises and the database stays as
-- it was, or it commits exactly one change, under the conditions that it has checked.
use zaraamad_portal_be.Base.{
  Bool-cases, ◌&&◌, provided, ℕ, Bool, true, false, Option, none, some, List, [], ◌∷◌, ◌++◌, ◌≡◌,
  refl, ◌↔◌, ◌⊎◌, inl, inr, arith, find_row, update_row, is_some, Option-cases,
}
use zaraamad_portal_be.Text.{Text}
use zaraamad_portal_be.Http.{Result, ok, is_ok}
use zaraamad_portal_be.Database.{Ticket, TicketStatus, Database, is_role, UserRole}
use zaraamad_portal_be.Session.{Session, begin}
use zaraamad_portal_be.Identity.{CurrentUser}
use zaraamad_portal_be.Tickets.{
  allowed_transition, ticket_id_of, TicketCreate, TicketUpdate, new_ticket, with_update,
  with_status, with_assignee, deactivated, create, update, change_status, assign, deactivate,
  can_access_ticket, user_is_active, user_id_of, check_assignee, get_visible_or_404,
}

abbrev pub put_tickets : Database → List Ticket → Database
put_tickets d tickets = record d { tickets = tickets }

-- The call raised, and the database is what it was.
abbrev pub Refuses : Database → Result Ticket × Session → Type 0
Refuses d (r, s) = (is_ok r ≡ false) × (s.committed ≡ d)

-- The ticket `k` was active and visible to the user, it was edited by `f`, and `f` of it returned.
abbrev pub Commits :
    Database → CurrentUser → ℕ → (Ticket → Ticket) → Ticket → Result Ticket × Session → Type 0
Commits d user k f t (r, s) =
    (find_row ticket_id_of k d.tickets ≡ some t)
    × (t.is_active ≡ true)
    × (can_access_ticket user t ≡ true)
    × (r ≡ ok (f t))
    × (s.committed ≡ put_tickets d (update_row ticket_id_of k f d.tickets))

-- The users that a ticket may be assigned to: nobody, or a user that exists and is active.
abbrev pub is_assignable : Database → Option ℕ → Bool
is_assignable d none = true
is_assignable d (some user_id) =
    is_some (provided user_is_active (find_row user_id_of user_id d.users))

check_assignee_lem :
    (assignee : Option ℕ) (s : Session)
    → ((check_assignee assignee s).1 ≡ s)
      × (is_ok (check_assignee assignee s).0 ≡ is_assignable s.current assignee)
unfolding check_assignee
check_assignee_lem none s = (refl, refl)
check_assignee_lem (some user_id) s = (ground arith, ground arith)

module _ (violation : Database → Option Text) where
  -- An update of an active ticket by the admin or its creator.
  pub update_outcome :
      (k : ℕ) (dto : TicketUpdate) (user : CurrentUser) (d : Database)
      → Refuses d (update violation k dto user (begin d))
        ⊎ ((t : Ticket) × Commits d user k
              (with_update dto)
              t
              (update violation k dto user (begin d)))
  unfolding update
  update_outcome k dto user d = elim (Option-cases (find_row ticket_id_of k d.tickets)) [
    | inl missing ↦ inl (ground arith)
    | inr (t, e) ↦ ground arith
  ]

  -- A change of status is refused and leaves the database alone, or an admin made it on an active
  -- ticket, along an allowed transition, and the database has that ticket with the new status.
  pub change_status_outcome :
      (now k : ℕ) (target : TicketStatus) (user : CurrentUser) (d : Database)
      → Refuses d (change_status violation now k target user (begin d))
        ⊎ ((t : Ticket) × (actor : ℕ) × (user.id ≡ some actor)
            × (is_role user.role UserRole.admin ≡ true)
            × (allowed_transition t.status target ≡ true)
            × Commits d user k
                (with_status now actor target)
                t
                (change_status violation now k target user (begin d)))
  unfolding change_status
  change_status_outcome now k target user d =
      elim (Option-cases (find_row ticket_id_of k d.tickets)) [
        | inl missing ↦ inl (ground arith)
        | inr (t, e) ↦ elim (Bool-cases (t.is_active && can_access_ticket user t)) [
          | inr hidden ↦ inl (ground arith)
          | inl visible ↦ elim (Bool-cases (allowed_transition t.status target)) [
            | inr refused ↦ inl (ground arith)
            | inl allowed ↦ ground arith
          ]
        ]
      ]

  -- An assignment by an admin, to nobody or to a user that passes the check.
  pub assign_outcome :
      (k : ℕ) (assignee : Option ℕ) (user : CurrentUser) (d : Database)
      → Refuses d (assign violation k assignee user (begin d))
        ⊎ ((t : Ticket) × (actor : ℕ) × (user.id ≡ some actor)
            × (is_role user.role UserRole.admin ≡ true)
            × (is_assignable d assignee ≡ true)
            × Commits d user k
                (with_assignee actor assignee)
                t
                (assign violation k assignee user (begin d)))
  unfolding assign
  assign_outcome k assignee user d = elim (Option-cases (find_row ticket_id_of k d.tickets)) [
    | inl missing ↦ inl (ground arith)
    | inr (t, e) ↦ ground (arith, check_assignee_lem assignee (begin d))
  ]

  pub deactivate_outcome :
      (k : ℕ) (user : CurrentUser) (d : Database)
      → Refuses d (deactivate violation k user (begin d))
        ⊎ ((t : Ticket) × (is_some user.id ≡ true)
            × (is_role user.role UserRole.admin ≡ true)
            × Commits d user k deactivated t (deactivate violation k user (begin d)))
  unfolding deactivate
  deactivate_outcome k user d = elim (Option-cases (find_row ticket_id_of k d.tickets)) [
    | inl missing ↦ inl (ground arith)
    | inr (t, e) ↦ ground arith
  ]

  -- A creation is refused and leaves the database alone, or the caller has a key, the assignee is
  -- nobody or an active user, and the new ticket is returned and appended to the rows.
  pub create_outcome :
      (new_id : ℕ) (dto : TicketCreate) (user : CurrentUser) (d : Database)
      → Refuses d (create violation new_id dto user (begin d))
        ⊎ ((actor : ℕ) × (user.id ≡ some actor)
            × (is_assignable d dto.assigned_to_user_id ≡ true)
            × ((create violation new_id dto user (begin d)).0 ≡ ok (new_ticket new_id actor dto))
            × ((create violation new_id dto user (begin d)).1.committed
                ≡ put_tickets d (d.tickets ++ new_ticket new_id actor dto ∷ [])))
  unfolding create
  create_outcome new_id dto user d =
      ground (arith, check_assignee_lem dto.assigned_to_user_id (begin d))

  -- For a user who is not an admin, a change of status, an assignment and a deactivation are refused
  -- and leave the database alone.
  pub admin_only :
      (now k : ℕ) (target : TicketStatus) (assignee : Option ℕ) (user : CurrentUser) (d : Database)
      → is_role user.role UserRole.admin ≡ false
      → Refuses d (change_status violation now k target user (begin d))
        × Refuses d (assign violation k assignee user (begin d))
        × Refuses d (deactivate violation k user (begin d))
  unfolding change_status assign deactivate
  admin_only now k target assignee user d h = (ground arith, ground arith, ground arith)

-- Exactly the active tickets can be read by their key: all of them by an admin, and by the others
-- those that they created.
pub get_visible_iff :
    (k : ℕ) (user : CurrentUser) (t : Ticket) (s : Session)
    → ((get_visible_or_404 k user s).0 ≡ ok t) ↔ (
        (find_row ticket_id_of k s.current.tickets ≡ some t)
        × (t.is_active ≡ true)
        × ((is_role user.role UserRole.admin ≡ true) ⊎ (user.id ≡ some t.created_by_user_id)))
unfolding get_visible_or_404
get_visible_iff k user t s = elim (Option-cases (find_row ticket_id_of k s.current.tickets)) [
  | inl missing ↦ (ground arith, ground arith)
  | inr (u, e) ↦ (ground arith, ground arith)
]
