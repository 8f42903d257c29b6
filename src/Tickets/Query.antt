-- ===== src/Tickets/Query.antt =====
-- `TicketQueryBuilder` and `TicketService.list_tickets` of app/modules/tickets/service.py. How the
-- database matches a search pattern and orders the rows are parameters: `ilike`, and `order_by`
-- with the law that it returns the same rows.
use zaraamad_portal_be.Base.{
  ℕ, ◌⊎◌, Bool, true, false, ◌&&◌, ◌||◌, Option, none, some, List, ◌≡◌, sym, arith, ◌==◌, eq_some,
  where_some, keep, length, All, All-keep, All-mono, All-take, All-drop, SameRows, All-SameRows,
  inl, inr,
}
use mathlib.Core.Path.{subst}
use zaraamad_portal_be.Text.{Text, is_empty}
use zaraamad_portal_be.Http.{ok}
use zaraamad_portal_be.Database.{Ticket, TicketStatus, TicketPriority, SortOrder, UserRole, is_role}
use zaraamad_portal_be.Session.{Session, Action, reads, pure, ◌>>=◌}
use zaraamad_portal_be.Identity.{CurrentUser}
use zaraamad_portal_be.Pagination.{PaginationParams, PaginationMeta, page_of, offset}
use zaraamad_portal_be.Tickets.{resolve_owner_scope, can_access_ticket}

pub data SortColumn : Type 0 where
  id status priority created_at updated_at resolved_at : SortColumn

pub record Filters : Type 0 where
  pub status_filter : Option TicketStatus
  pub priority_filter : Option TicketPriority
  pub created_by_user_id : Option ℕ
  pub assigned_to_user_id : Option ℕ
  pub search : Option Text

abbrev status_eq : TicketStatus → TicketStatus → Bool
status_eq TicketStatus.«open» TicketStatus.«open» = true
status_eq TicketStatus.in_progress TicketStatus.in_progress = true
status_eq TicketStatus.resolved TicketStatus.resolved = true
status_eq TicketStatus.closed TicketStatus.closed = true
status_eq TicketStatus.rejected TicketStatus.rejected = true
status_eq _ _ = false

abbrev priority_eq : TicketPriority → TicketPriority → Bool
priority_eq TicketPriority.low TicketPriority.low = true
priority_eq TicketPriority.medium TicketPriority.medium = true
priority_eq TicketPriority.high TicketPriority.high = true
priority_eq TicketPriority.urgent TicketPriority.urgent = true
priority_eq _ _ = false

-- `Ticket.priority == …` on a column that may be null.
abbrev is_some_and : {A : Type 0} → Option A → (A → Bool) → Bool
is_some_and none test = false
is_some_and (some a) test = test a

-- What a listed ticket is: active, and one that the caller may open.
abbrev pub is_listable : CurrentUser → Ticket → Bool
is_listable user t = t.is_active && can_access_ticket user t

module _ (ilike : Text → Option Text → Bool) where
  -- `if search: query = query.where(or_(…))`
  matches_search : Option Text → Ticket → Bool
  matches_search none t = true
  matches_search (some text) t = is_empty text || ilike text t.title || ilike text t.description

  -- The `where` clauses of `build_list_query`.
  pub build_list_query : Filters → Ticket → Bool
  unfolding matches_search
  build_list_query f t =
      t.is_active
      && (where_some f.status_filter (λ s. status_eq t.status s)
          && (where_some f.priority_filter (λ p. is_some_and t.priority (λ q. priority_eq q p))
              && (where_some f.created_by_user_id (λ user. t.created_by_user_id == user)
                  && (where_some f.assigned_to_user_id (λ user. eq_some t.assigned_to_user_id user)
                      && matches_search f.search t))))

  -- The creator that the query filters by: the caller, or what an admin asks for.
  abbrev pub with_owner : Option ℕ → Filters → Filters
  with_owner none f = f
  with_owner (some owner) f = record f { created_by_user_id = some owner }

  listable_admin :
      (user : CurrentUser) (f : Filters)
      → is_role user.role UserRole.admin ≡ true
      → (t : Ticket) → build_list_query (with_owner none f) t ≡ true
      → is_listable user t ≡ true
  unfolding build_list_query can_access_ticket
  listable_admin user f admin t h = ground arith

  listable_own :
      (user : CurrentUser) (actor : ℕ) (f : Filters)
      → user.id ≡ some actor
      → (t : Ticket) → build_list_query (with_owner (some actor) f) t ≡ true
      → is_listable user t ≡ true
  unfolding build_list_query can_access_ticket
  listable_own user actor f known t h = ground arith

  module _ (order_by : SortColumn → SortOrder → List Ticket → List Ticket) where
    unfoldable pub list_tickets :
        Filters
        → SortColumn
        → SortOrder
        → PaginationParams
        → CurrentUser
        → Action (List Ticket × PaginationMeta)
    unfolding resolve_owner_scope build_list_query ◌>>=◌
    list_tickets f sort_by sort_order pagination user = do
      owner ← resolve_owner_scope user
      rows ← reads (λ d. keep (build_list_query (with_owner owner f)) d.tickets)
      pure (
        page_of pagination (order_by sort_by sort_order rows),
        record {
          total_count = length rows;
          page = pagination.page;
          page_size = pagination.page_size;
        },
      )

    -- The rows of the query and the page of them that an owner's scope gives.
    abbrev selected : Option ℕ → Filters → Session → List Ticket
    selected owner f s = keep (build_list_query (with_owner owner f)) s.current.tickets

    -- The scope of a listing: none for an admin, the caller for the others.
    abbrev pub Lists :
        Option ℕ
        → Filters
        → SortColumn
        → SortOrder
        → PaginationParams
        → CurrentUser
        → Session
        → List Ticket × PaginationMeta
        → Type 0
    Lists owner f c o p user s (items, meta) =
        (items ≡ page_of p (order_by c o (selected owner f s)))
        × (meta.total_count ≡ length (selected owner f s))

    list_tickets_scope :
        (f : Filters) (c : SortColumn) (o : SortOrder) (p : PaginationParams) (user : CurrentUser)
        (out : List Ticket × PaginationMeta) (s : Session)
        → (list_tickets f c o p user s).0 ≡ ok out
        → ((is_role user.role UserRole.admin ≡ true) × Lists none f c o p user s out)
          ⊎ ((is_role user.role UserRole.admin ≡ false)
              × (actor : ℕ) × (user.id ≡ some actor)
              × Lists (some actor) f c o p user s out)
    unfolding list_tickets resolve_owner_scope
    list_tickets_scope f c o p user out s h = ground arith

    module _
        (ordered : (c : SortColumn) (o : SortOrder) (ts : List Ticket)
          → SameRows (order_by c o ts) ts) where
      page-All :
          (q : Ticket → Bool) (owner : Option ℕ) (f : Filters) (c : SortColumn) (o : SortOrder)
          (p : PaginationParams) (s : Session)
          → ((t : Ticket) → build_list_query (with_owner owner f) t ≡ true → q t ≡ true)
          → All (λ t. q t ≡ true) (page_of p (order_by c o (selected owner f s)))
      unfolding page_of
      page-All q owner f c o p s implies = All-take _ p.page_size _ (
          All-drop _ (offset p) _ (
            All-SameRows q (order_by c o (selected owner f s)) (selected owner f s)
              (ordered c o (selected owner f s))
              (All-mono _ (λ t. q t ≡ true) (selected owner f s) implies
                (All-keep (build_list_query (with_owner owner f)) s.current.tickets))))

      -- Whatever the filters say, a user is shown only active tickets that they may open.
      pub list_tickets-is_listable :
          (f : Filters) (c : SortColumn) (o : SortOrder) (p : PaginationParams) (user : CurrentUser)
          (out : List Ticket × PaginationMeta) (s : Session)
          → (list_tickets f c o p user s).0 ≡ ok out
          → All (λ t. is_listable user t ≡ true) out.0
      list_tickets-is_listable f c o p user out s h =
          elim (list_tickets_scope f c o p user out s h) [
            | inl (admin, (e, _)) ↦
                subst (All (λ t. is_listable user t ≡ true)) (sym e)
                  (page-All (is_listable user) none f c o p s (listable_admin user f admin))
            | inr (_, actor, known, (e, _)) ↦ subst (All (λ t. is_listable user t ≡ true)) (sym e) (
                page-All (is_listable user) (some actor) f c o p s
                  (listable_own user actor f known))
          ]
