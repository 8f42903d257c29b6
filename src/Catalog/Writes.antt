-- ===== src/Catalog/Writes.antt =====
-- The calls of `CustomerServicePurchaseService` in app/modules/service_catalog/service.py that write:
-- each of them is refused and leaves the database alone, or commits one change.
use zaraamad_portal_be.Base.{
  ℕ, true, false, Option, none, some, List, [], ◌∷◌, ◌++◌, ◌≡◌, refl, ap, sym, subst, find_row,
  update_row, find_row-update_row_self, key-find_row, find_row_appended,
}
use zaraamad_portal_be.Text.{Text}
use zaraamad_portal_be.Database.{CustomerServicePurchase, Database}
use zaraamad_portal_be.Session.{Session, begin, or_fail, ◌>>=◌, flush, commit_or_rollback}
use zaraamad_portal_be.Session.Ends.{
  Ends, Ends-ok, Ends-bind, Ends-mono, Ends-checks, Ends-then, Ends-or_fail, Ends-flush,
  Ends-modify, Ends-commit_or_rollback,
}
use zaraamad_portal_be.Identity.{CurrentUser}
use zaraamad_portal_be.Access.{has_access, validate_customer_access}
use zaraamad_portal_be.Catalog.Lookup.{Joined, get_active_customer_or_404}
use zaraamad_portal_be.Catalog.Selection.{CustomerServicePurchaseItemCreate}
use zaraamad_portal_be.Catalog.Purchases.{
  CustomerServicePurchaseCreate, CustomerServicePurchaseUpdate, CustomerServicePurchaseDetails,
  purchase_id_of, new_purchase, with_totals, put_purchase, replace_purchase_items, get_accessible,
  get_by_id, integrity_exception, replace_given_items, given_items, with_notes, deactivated, create,
  update, deactivate,
}
use zaraamad_portal_be.Catalog.Outcome.{
  HasActive, IsAccessible, active_customer_lem, access_lem, get_accessible_lem, Resolves, replaced,
  replace_lem, details_of, get_by_id_returns,
}

-- The change of a purchase `p` is durable, and the changed purchase is returned with its items.
pub record Wrote (p : CustomerServicePurchase) (d : Database)
    (details : CustomerServicePurchaseDetails) (s : Session) : Type 0 where
  pub committed : s.committed ≡ d
  pub returned : details ≡ details_of d p

module _ (fresh : ℕ → ℕ) where
  -- What the items of a request change: nothing where there are none, and otherwise the totals and
  -- the items of the purchase, by the rows that they resolve to.
  abbrev pub Edits :
      Database
      → CustomerServicePurchase
      → Option (List CustomerServicePurchaseItemCreate)
      → Database
      → CustomerServicePurchase
      → Type 0
  Edits d p none e q = (e ≡ d) × (q ≡ p)
  Edits d p (some items) e q =
      (rows : List Joined) × Resolves d p.customer_id items rows
      × (e ≡ replaced fresh p.id rows d)
      × (q ≡ with_totals rows p)

  -- The purchase `p` of the database `d` was edited to `q` in `e`, and is found there.
  abbrev pub EditedTo :
      Database
      → CustomerServicePurchase
      → Option (List CustomerServicePurchaseItemCreate)
      → Database
      → CustomerServicePurchase
      → Type 0
  EditedTo d p items e q =
      Edits d p items e q
      × (find_row purchase_id_of p.id e.purchases ≡ some q)
      × (e.customers ≡ d.customers)
      × (q.customer_id ≡ p.customer_id)

-- The database with the new purchase, before it has items.
abbrev pub with_new : CustomerServicePurchase → Database → Database
with_new p d = record d { purchases = d.purchases ++ p ∷ [] }

HasActive-moved :
    (d e : Database) (j k : ℕ) → e.customers ≡ d.customers → k ≡ j → HasActive d j → HasActive e k
HasActive-moved d e j k same id (c, found, active) = (c, rw (same, id) found, active)

module _ (violation : Database → Option Text) (fresh : ℕ → ℕ) where
  -- The last two calls of each operation, on a database that has the changed purchase.
  finish_lem :
      (user : CurrentUser) (k : ℕ) (p : CustomerServicePurchase) (s : Session) {d e : Database}
      {Q : CustomerServicePurchaseDetails → Session → Type 0}
      → s.committed ≡ d
      → s.current ≡ e
      → find_row purchase_id_of k e.purchases ≡ some p
      → HasActive e p.customer_id
      → has_access user p.customer_id ≡ true
      → ((details : CustomerServicePurchaseDetails) (t : Session)
          → Wrote p e details t
          → Q details t)
      → Ends
          ((commit_or_rollback violation integrity_exception >>= λ _. get_by_id true user k) s)
          Q
          (λ e t. t.committed ≡ d)
  finish_lem user k p s {d} {e} {Q} same now found active allowed q =
      Ends-bind (commit_or_rollback violation integrity_exception) _ s (
        Ends-commit_or_rollback violation integrity_exception s
          (subst (λ x. Ends x Q (λ e t. t.committed ≡ d))
            (sym (
              get_by_id_returns user k p (record s { committed = s.current })
                (subst (λ x. find_row purchase_id_of k x.purchases ≡ some p) (sym now) found)
                (subst (λ x. HasActive x p.customer_id) (sym now) active) allowed))
            (Ends-ok (
              q (details_of s.current p) (record s { committed = s.current })
                (record { committed = now; returned = ap (λ x. details_of x p) now }))))
          (λ text. same))

  -- The purchase with the key is found as it was edited.
  edited :
      (f : CustomerServicePurchase → CustomerServicePurchase) (k : ℕ) {p : CustomerServicePurchase}
      (rows : List CustomerServicePurchase)
      → ((q : CustomerServicePurchase) → (f q).id ≡ q.id)
      → find_row purchase_id_of k rows ≡ some p
      → find_row purchase_id_of p.id (update_row purchase_id_of p.id f rows) ≡ some (f p)
  edited f k {p} rows same found = find_row-update_row_self purchase_id_of p.id f rows same (
      subst (λ j. find_row purchase_id_of j rows ≡ some p)
        (sym (key-find_row purchase_id_of k rows found)) found)

  -- A deactivation is refused and leaves the database alone, or the purchase is active, its customer
  -- is active, the user may act for the customer, and the purchase is deactivated and returned.
  pub deactivate_purchase_outcome :
      (k : ℕ) (user : CurrentUser) (d : Database)
      → Ends
          (deactivate violation fresh k user (begin d))
          (λ details t.
            (p : CustomerServicePurchase) × IsAccessible d false user k p
            × Wrote (deactivated p) (put_purchase p.id deactivated d) details t)
          (λ e t. t.committed ≡ d)
  unfolding deactivate deactivated
  deactivate_purchase_outcome k user d =
      Ends-checks (get_accessible false user k) _ (begin d)
        (get_accessible_lem false user k (begin d))
        (λ p accessible. Ends-modify (put_purchase p.id deactivated) _ (begin d) (
          finish_lem user p.id (deactivated p)
            (record { committed = d; current = put_purchase p.id deactivated d }) refl refl
            (edited deactivated k d.purchases (λ q. refl) accessible.found) accessible.of_active
            accessible.allowed (λ details t wrote. (p, accessible, wrote))))
        (λ e. refl)

  replace_given_lem :
      (p : CustomerServicePurchase) (items : Option (List CustomerServicePurchaseItemCreate))
      (s : Session)
      → find_row purchase_id_of p.id s.current.purchases ≡ some p
      → Ends
          (replace_given_items fresh p items s)
          (λ _ t.
            (q : CustomerServicePurchase) × (e : Database) × (t ≡ record s { current = e })
            × EditedTo fresh s.current p items e q)
          (λ e t. t.committed ≡ s.committed)
  unfolding replace_given_items with_totals
  replace_given_lem p none s found = Ends-ok (p, s.current, refl, ((refl, refl), found, refl, refl))
  replace_given_lem p (some items) s found =
      Ends-mono (replace_purchase_items fresh p items s)
        (λ _ t (rows, resolves, same). (
          with_totals rows p,
          replaced fresh p.id rows s.current,
          same,
          (
            (rows, resolves, refl, refl),
            find_row-update_row_self purchase_id_of p.id (with_totals rows) s.current.purchases
                (λ q. refl) found,
            refl,
            refl,
          ),
        ))
        (λ e t same. ap (λ (u : Session). u.committed) same) (replace_lem fresh p items s)

  -- An update is refused and leaves the database alone, or the purchase and its customer are active,
  -- the user may act for the customer, and the purchase with the notes and, where the request has
  -- items, with the items that it resolves to and their totals is durable and is returned.
  pub update_purchase_outcome :
      (k : ℕ) (dto : CustomerServicePurchaseUpdate) (user : CurrentUser) (d : Database)
      → Ends
          (update violation fresh k dto user (begin d))
          (λ details t.
            (p : CustomerServicePurchase) × IsAccessible d false user k p
            × (q : CustomerServicePurchase) × (e : Database) × EditedTo fresh
                (put_purchase p.id (with_notes dto.notes) d)
                (with_notes dto.notes p)
                (given_items dto.items)
                e
                q
            × Wrote q e details t)
          (λ e t. t.committed ≡ d)
  unfolding update with_notes
  update_purchase_outcome k dto user d =
      Ends-checks (get_accessible false user k) _ (begin d)
        (get_accessible_lem false user k (begin d))
        (λ p accessible.
          let s : Session = record {
            committed = d;
            current = put_purchase p.id (with_notes dto.notes) d;
          } in
          Ends-modify (put_purchase p.id (with_notes dto.notes)) _ (begin d) (
            Ends-then (replace_given_items fresh (with_notes dto.notes p) (given_items dto.items)) _
              s
              (replace_given_lem (with_notes dto.notes p) (given_items dto.items) s
                (edited (with_notes dto.notes) k d.purchases (λ q. refl) accessible.found))
              (λ _ t (q, e, same, edits).
                finish_lem user p.id q t (ap (λ (u : Session). u.committed) same)
                  (ap (λ (u : Session). u.current) same) edits.1
                  (HasActive-moved d e p.customer_id q.customer_id edits.2 edits.3
                    accessible.of_active)
                  (subst (λ j. has_access user j ≡ true) (sym edits.3) accessible.allowed)
                  (λ details t wrote. (p, accessible, q, e, edits, wrote)))
              (λ e t same. same)))
        (λ e. refl)

  -- A creation with a new key is refused and leaves the database alone, or the caller has a key, the
  -- customer is active, the user may act for them, and the purchase with the items that the request
  -- resolves to and their totals is durable and is returned.
  pub create_purchase_outcome :
      (new_id customer_id : ℕ) (dto : CustomerServicePurchaseCreate) (user : CurrentUser)
      (d : Database)
      → find_row purchase_id_of new_id d.purchases ≡ none
      → Ends
          (create violation fresh new_id customer_id dto user (begin d))
          (λ details t.
            (actor : ℕ) × (user.id ≡ some actor)
            × HasActive d customer_id
            × (has_access user customer_id ≡ true)
            × (q : CustomerServicePurchase) × (e : Database) × EditedTo fresh
                (with_new (new_purchase new_id customer_id actor dto.notes) d)
                (new_purchase new_id customer_id actor dto.notes)
                (some dto.items)
                e
                q
            × Wrote q e details t)
          (λ e t. t.committed ≡ d)
  unfolding create replace_given_items new_purchase
  create_purchase_outcome new_id customer_id dto user d is_new =
      Ends-bind (or_fail user.id 403 _) _ (begin d) (
        Ends-or_fail user.id 403 _ (begin d)
          (λ actor who.
            let p = new_purchase new_id customer_id actor dto.notes in
            let s : Session = record { committed = d; current = with_new p d } in
            Ends-checks (get_active_customer_or_404 customer_id) _ (begin d)
              (active_customer_lem customer_id (begin d))
              (λ _ active.
                Ends-checks (validate_customer_access user customer_id) _ (begin d)
                  (access_lem user customer_id (begin d))
                  (λ _ allowed. Ends-modify (with_new p) _ (begin d) (
                    Ends-bind (flush violation) _ s (
                      Ends-flush violation s
                        (Ends-then (replace_purchase_items fresh p dto.items) _ s
                          (replace_given_lem p (some dto.items) s
                            (find_row_appended purchase_id_of p d.purchases is_new))
                          (λ _ t (q, e, same, edits).
                            finish_lem user new_id q t (ap (λ (u : Session). u.committed) same)
                              (ap (λ (u : Session). u.current) same) edits.1
                              (HasActive-moved d e customer_id q.customer_id edits.2 edits.3 active)
                              (subst (λ j. has_access user j ≡ true) (sym edits.3) allowed)
                              (λ details t wrote.
                                (actor, who, active, allowed, q, e, edits, wrote)))
                          (λ e t same. same))
                        (λ text. refl))))
                  (λ e. refl))
              (λ e. refl))
          refl)
