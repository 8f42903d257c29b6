-- ===== src/Catalog/Outcome.antt =====
-- The calls of `CustomerServicePurchaseService` in app/modules/service_catalog/service.py, branch by
-- branch: what they check, what they commit, and what they return.
use zaraamad_portal_be.Base.{
  ℕ, Bool, true, ◌||◌, some, List, map, ◌≡◌, refl, inl, inr, arith, ap, keep, find_row,
  key-find_row, sort_by, provided-some, all_distinct, Bool-cases,
}
use zaraamad_portal_be.Http.{ok}
use zaraamad_portal_be.Database.{
  Customer, CustomerServicePurchase, CustomerServicePurchaseItem, Database,
}
use zaraamad_portal_be.Session.{Session, ◌>>=◌}
use zaraamad_portal_be.Session.Ends.{
  Ends, Ends-ok, Ends-raised, Checks, Ends-checks, Ends-then, Ends-or_fail, Ends-reads,
  Ends-provided, Ends-modify,
}
use zaraamad_portal_be.Identity.{CurrentUser}
use zaraamad_portal_be.Access.{has_access, validate_customer_access}
use zaraamad_portal_be.Users.{customer_id_of}
use zaraamad_portal_be.Catalog.Lookup.{Joined, customer_is_active, get_active_customer_or_404}
use zaraamad_portal_be.Catalog.Selection.{
  CustomerServicePurchaseItemCreate, selected_id, resolve_items,
}
use zaraamad_portal_be.Catalog.Selects.{Selects, resolve_items_lem}
use zaraamad_portal_be.Catalog.Purchases.{
  CustomerServicePurchaseDetails, purchase_id_of, with_totals, is_item_of, put_purchase, put_items,
  replace_purchase_items, get_purchase_or_404, get_accessible, get_by_id,
}

-- The customer is active.
abbrev pub HasActive : Database → ℕ → Type 0
HasActive d k =
    (c : Customer) × (find_row customer_id_of k d.customers ≡ some c)
    × (customer_is_active c ≡ true)

pub active_customer_lem :
    (k : ℕ) (s : Session) → Checks (get_active_customer_or_404 k) s (λ _. HasActive s.current k)
unfolding get_active_customer_or_404
active_customer_lem k s = record {
  checks =
      Ends-reads (λ d. find_row customer_id_of k d.customers) _ s
        (Ends-provided customer_is_active (find_row customer_id_of k s.current.customers) 404 _ _ s
          (λ c found active. Ends-ok (refl, (c, found, active))) refl);
}

pub access_lem :
    (user : CurrentUser) (k : ℕ) (s : Session)
    → Checks (validate_customer_access user k) s (λ _. has_access user k ≡ true)
access_lem user k s = record {
  checks = elim (Bool-cases (has_access user k)) [
    | inl allowed ↦ rw allowed (Ends-ok (refl, refl))
    | inr denied ↦ rw denied (Ends-raised refl)
  ];
}

-- The purchase is there, its customer is active, and the user may act for the customer.
pub record IsAccessible (d : Database) (include_inactive : Bool) (user : CurrentUser) (k : ℕ)
    (p : CustomerServicePurchase) : Type 0 where
  pub found : find_row purchase_id_of k d.purchases ≡ some p
  pub shown : (include_inactive || p.is_active) ≡ true
  pub of_active : HasActive d p.customer_id
  pub allowed : has_access user p.customer_id ≡ true

get_purchase_lem :
    (include_inactive : Bool) (k : ℕ) (s : Session)
    → Checks (get_purchase_or_404 include_inactive k) s (λ p.
      (find_row purchase_id_of k s.current.purchases ≡ some p)
      × ((include_inactive || p.is_active) ≡ true))
unfolding get_purchase_or_404
get_purchase_lem include_inactive k s = record {
  checks =
      Ends-reads (λ d. find_row purchase_id_of k d.purchases) _ s
        (Ends-or_fail _ 404 _ s
          (λ p e. (
            refl,
            provided-some (λ (p : CustomerServicePurchase). include_inactive || p.is_active)
                (find_row purchase_id_of k s.current.purchases) e,
          ))
          refl);
}

pub get_accessible_lem :
    (include_inactive : Bool) (user : CurrentUser) (k : ℕ) (s : Session)
    → Checks
        (get_accessible include_inactive user k)
        s
        (IsAccessible s.current include_inactive user k)
unfolding get_accessible
get_accessible_lem include_inactive user k s = record {
  checks =
      Ends-checks (get_purchase_or_404 include_inactive k) _ s
        (get_purchase_lem include_inactive k s)
        (λ p found.
          Ends-checks (get_active_customer_or_404 p.customer_id) _ s
            (active_customer_lem p.customer_id s)
            (λ _ active.
              Ends-checks (validate_customer_access user p.customer_id) _ s
                (access_lem user p.customer_id s)
                (λ _ allowed. Ends-ok (
                  refl,
                  record {
                    found = found.0;
                    shown = found.1;
                    of_active = active;
                    allowed = allowed;
                  },
                ))
                (λ e. refl))
            (λ e. refl))
        (λ e. refl);
}

-- What a selection resolves to, with the request's own check.
pub record Resolves (d : Database) (customer_id : ℕ)
    (items : List CustomerServicePurchaseItemCreate) (rows : List Joined) : Type 0 where
  pub distinct : all_distinct (map selected_id items) ≡ true
  pub selects : Selects d customer_id (map selected_id items) rows

module _ (fresh : ℕ → ℕ) where
  -- The purchase with its new items.
  abbrev pub replaced : ℕ → List Joined → Database → Database
  replaced k rows d = put_items fresh k rows (put_purchase k (with_totals rows) d)

  pub replace_lem :
      (p : CustomerServicePurchase) (items : List CustomerServicePurchaseItemCreate) (s : Session)
      → Ends
          (replace_purchase_items fresh p items s)
          (λ _ t.
            (rows : List Joined) × Resolves s.current p.customer_id items rows
            × (t ≡ record s { current = replaced p.id rows s.current }))
          (λ e t. t ≡ s)
  unfolding replace_purchase_items
  replace_lem p items s =
      Ends-then (resolve_items p.customer_id items) _ s (resolve_items_lem p.customer_id items s)
        (λ rows t (same, distinct, selects).
          Ends-modify (put_purchase p.id (with_totals rows)) _ t (
            Ends-ok (
              rows,
              record { distinct = distinct; selects = selects },
              ap (λ (u : Session). record u { current = replaced p.id rows u.current }) same,
            )))
        (λ e t same. same)

-- A purchase that is there, with an active customer that the user may act for, is returned with its
-- items.
pub get_by_id_lem :
    (include_inactive : Bool) (user : CurrentUser) (k : ℕ) (s : Session)
    → Checks (get_by_id include_inactive user k) s (λ details.
      IsAccessible s.current include_inactive user k details.purchase
      × (details.items
          ≡ sort_by
              (λ (item : CustomerServicePurchaseItem). item.id)
              (keep (is_item_of k) s.current.purchase_items)))
unfolding get_by_id
get_by_id_lem include_inactive user k s = record {
  checks =
      Ends-checks (get_accessible include_inactive user k) _ s
        (get_accessible_lem include_inactive user k s)
        (λ p accessible.
          Ends-reads
            (λ d.
              sort_by (λ (item : CustomerServicePurchaseItem). item.id)
                (keep (is_item_of p.id) d.purchase_items))
            _ s
            (Ends-ok (
              refl,
              (
                accessible,
                ap
                    (λ j.
                      sort_by (λ (item : CustomerServicePurchaseItem). item.id)
                        (keep (is_item_of j) s.current.purchase_items))
                    (key-find_row purchase_id_of k s.current.purchases accessible.found),
              ),
            )))
        (λ e. refl);
}

-- What `get_by_id` returns for a purchase.
abbrev pub details_of : Database → CustomerServicePurchase → CustomerServicePurchaseDetails
details_of d p = record {
  purchase = p;
  items =
      sort_by (λ (item : CustomerServicePurchaseItem). item.id)
        (keep (is_item_of p.id) d.purchase_items);
}

pub get_by_id_returns :
    (user : CurrentUser) (k : ℕ) (p : CustomerServicePurchase) (s : Session)
    → find_row purchase_id_of k s.current.purchases ≡ some p
    → HasActive s.current p.customer_id
    → has_access user p.customer_id ≡ true
    → get_by_id true user k s ≡ (ok (details_of s.current p), s)
unfolding get_by_id get_accessible get_purchase_or_404 get_active_customer_or_404 ◌>>=◌
get_by_id_returns user k p s found (c, row, active) allowed = ground arith
