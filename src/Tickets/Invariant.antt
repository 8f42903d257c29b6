-- ===== src/Tickets/Invariant.antt =====
-- What holds of the tickets through any sequence of requests: the resolution time goes with the
-- status, a closed ticket stays closed, a deactivated one stays as it is.
use zaraamad_portal_be.Base.{
  ℕ, true, false, Option, some, List, [], ◌∷◌, ◌++◌, ◌≡◌, refl, ap, ◌∙◌, inl, inr, arith, find_row,
  is_some, ◌==◌, All, All-update_row, All-find_row, find_row-update_row_self,
  find_row-update_row_ne, Bool-cases, ==_iff,
}
use mathlib.Core.Path.{subst}
use zaraamad_portal_be.Text.{Text}
use zaraamad_portal_be.Database.{Ticket, TicketStatus, Database}
use zaraamad_portal_be.Identity.{CurrentUser}
use zaraamad_portal_be.Tickets.{is_resolved_state, ticket_id_of, new_ticket}
use zaraamad_portal_be.Tickets.Steps.{
  ◌⟶◌, stay, start, Edit, described, moved, handed, retired, Step, idle, opened, edited, Request,
  respond, respond-Step,
}

-- The resolution time is set exactly in the states `resolved` and `closed`.
abbrev pub IsConsistent : Ticket → Type 0
IsConsistent t = is_some t.resolved_at ≡ is_resolved_state t.status

Edit-IsConsistent : {t u : Ticket} → Edit t u → IsConsistent t → IsConsistent u
Edit-IsConsistent (described _ _ _) h = h
Edit-IsConsistent (moved _ _ _ _ e) h = e
Edit-IsConsistent (handed _ _) h = h
Edit-IsConsistent retired h = h

All-append_one :
    (ts : List Ticket) (t : Ticket)
    → All IsConsistent ts
    → IsConsistent t
    → All IsConsistent (ts ++ t ∷ [])
All-append_one [] t h k = (k, tt)
All-append_one (u ∷ ts) t h k = (h.0, All-append_one ts t h.1 k)

Step-IsConsistent :
    {d d' : Database} → Step d d' → All IsConsistent d.tickets → All IsConsistent d'.tickets
unfolding new_ticket is_resolved_state
Step-IsConsistent idle h = h
Step-IsConsistent {d} (opened new_id actor dto) h =
    All-append_one d.tickets (new_ticket new_id actor dto) h refl
Step-IsConsistent {d} (edited k f {t} found _ edit _) h =
    All-update_row ticket_id_of IsConsistent k f d.tickets h found
      (Edit-IsConsistent edit (All-find_row ticket_id_of IsConsistent k d.tickets h found))

-- Any sequence of requests.
unfoldable pub respond_all :
    (Database → Option Text) → List (Request × CurrentUser) → Database → Database
respond_all violation [] d = d
respond_all violation ((r, user) ∷ rs) d = respond_all violation rs (respond violation r user d)

-- `t` evolved: a closed one is still closed, and an inactive one is the same.
abbrev pub Settled : Ticket → Ticket → Type 0
Settled t u =
    (t.status ≡ TicketStatus.closed → u.status ≡ TicketStatus.closed)
    × (t.is_active ≡ false → u ≡ t)
    × (u.created_by_user_id ≡ t.created_by_user_id)

-- No edge leaves `closed`.
⟶-closed : {s t : TicketStatus} → s ⟶ t → s ≡ TicketStatus.closed → t ≡ TicketStatus.closed
⟶-closed start e = cc
⟶-closed stay e = e
⟶-closed _ e = cc

Edit-Settled : {t u : Ticket} → Edit t u → t.is_active ≡ true → Settled t u
Edit-Settled (described _ _ _) a = (λ e. e, λ e. cc, refl)
Edit-Settled (moved _ _ _ edge _) a = (⟶-closed edge, λ e. cc, refl)
Edit-Settled (handed _ _) a = (λ e. e, λ e. cc, refl)
Edit-Settled retired a = (λ e. e, λ e. cc, refl)

Settled-refl : (t : Ticket) → Settled t t
Settled-refl t = (λ e. e, λ e. refl, refl)

Settled-trans : (t u v : Ticket) → Settled t u → Settled u v → Settled t v
Settled-trans t u v h k =
    (λ e. k.0 (h.0 e), λ e. k.1 (ap (λ (x : Ticket). x.is_active) (h.1 e) ∙ e) ∙ h.1 e, k.2 ∙ h.2)

find_row-append :
    (k : ℕ) {t : Ticket} (ts us : List Ticket)
    → find_row ticket_id_of k ts ≡ some t
    → find_row ticket_id_of k (ts ++ us) ≡ some t
find_row-append k [] us e = cc
find_row-append k {t} (x ∷ ts) us e = ground (arith, find_row-append k {t = t} ts us)

Step-Settled :
    {d d' : Database} (k : ℕ) (t : Ticket)
    → Step d d'
    → find_row ticket_id_of k d.tickets ≡ some t
    → (u : Ticket) × (find_row ticket_id_of k d'.tickets ≡ some u) × Settled t u
Step-Settled k t idle e = (t, e, Settled-refl t)
Step-Settled {d} k t (opened new_id actor dto) e =
    (t, find_row-append k d.tickets (new_ticket new_id actor dto ∷ []) e, Settled-refl t)
Step-Settled {d} k t (edited j f {t = v} found active edit keeps) e = elim (Bool-cases (k == j)) [
  | inl same ↦
      let kj : k ≡ j = (==_iff k j).0 same in
      let vt : v ≡ t = cc in
      (
        f t,
        rw kj (find_row-update_row_self ticket_id_of j f d.tickets keeps (rw kj at e)),
        subst (λ x. Settled x (f x)) vt (Edit-Settled edit active),
      )
  | inr other ↦ (
    t,
    find_row-update_row_ne ticket_id_of k j f d.tickets keeps (λ kj. cc ((==_iff k j).1 kj)) ∙ e,
    Settled-refl t,
  )
]

module _ (violation : Database → Option Text) where
  -- If every ticket has a resolution time exactly where it is resolved or closed, then so it is after
  -- any sequence of requests, whoever sends them and whatever commits the database refuses.
  pub respond_all-IsConsistent :
      (rs : List (Request × CurrentUser)) (d : Database)
      → All IsConsistent d.tickets
      → All IsConsistent (respond_all violation rs d).tickets
  unfolding respond_all
  respond_all-IsConsistent [] d h = h
  respond_all-IsConsistent ((r, user) ∷ rs) d h =
      respond_all-IsConsistent rs (respond violation r user d)
        (Step-IsConsistent (respond-Step violation r user d) h)

  -- Through any sequence of requests a ticket keeps its key and its creator, a closed ticket stays
  -- closed, and a deactivated one does not change at all.
  pub respond_all-Settled :
      (rs : List (Request × CurrentUser)) (k : ℕ) (t : Ticket) (d : Database)
      → find_row ticket_id_of k d.tickets ≡ some t
      → (u : Ticket) × (find_row ticket_id_of k (respond_all violation rs d).tickets ≡ some u)
        × Settled t u
  unfolding respond_all
  respond_all-Settled [] k t d e = (t, e, Settled-refl t)
  respond_all-Settled ((r, user) ∷ rs) k t d e =
      let (u, found, settled) = Step-Settled k t (respond-Step violation r user d) e in
      let (v, found', settled') = respond_all-Settled rs k u (respond violation r user d) found in
      (v, found', Settled-trans t u v settled settled')
