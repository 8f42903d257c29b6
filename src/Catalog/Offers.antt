-- ===== src/Catalog/Offers.antt =====
-- The configurations of app/modules/service_catalog/service.py as a map: what each customer is
-- offered for each service. A bulk upsert sets the entries that the request names.
use zaraamad_portal_be.Base.{
  ℕ, suc, Bool, true, false, not, ◌&&◌, ◌==◌, Option, none, some, List, [], ◌∷◌, map, ◌≡◌, refl,
  sym, ap, subst, ◌∙◌, arith, inl, inr, Bool-cases, if◌then◌else◌, ==_iff, find_where,
  find_where-update_where, find_where-update_where_ne, find_where_appended, find_where_appended_ne,
  member, all_distinct, find_row,
}
use zaraamad_portal_be.Text.{Text}
use zaraamad_portal_be.Database.{Service, CustomerServiceConfig, Database}
use zaraamad_portal_be.Users.{customer_id_of}
use zaraamad_portal_be.Session.{Session, begin, or_fail, fail_if, commit_or_rollback}
use zaraamad_portal_be.Session.Ends.{
  Ends, Ends-ok, Ends-raised, Ends-bind, Ends-then, Ends-mono, Ends-fail_if, Ends-reads,
  Ends-commit_or_rollback, Ends-or_fail, Checks, Ends-checks,
}
use zaraamad_portal_be.Catalog.Lookup.{Joined, service_id_of, get_customer_or_404}
use zaraamad_portal_be.Catalog.Configs.{
  CustomerServiceConfigCreate, item_service_id, is_config, new_config, with_item,
  validate_service_for_create, upsert_item, upsert_items, config_integrity_exception, bulk_upsert,
}

-- What a configuration says, without its keys.
pub record Offer : Type 0 where
  pub is_enabled : Option Bool
  pub sale_price : Option ℕ
  pub support_price : ℕ
  pub notes : Option Text

abbrev offer_of : CustomerServiceConfig → Offer
offer_of c = record {
  is_enabled = c.is_enabled;
  sale_price = c.sale_price;
  support_price = c.support_price;
  notes = c.notes;
}

abbrev pub item_offer : CustomerServiceConfigCreate → Offer
item_offer item = record {
  is_enabled = some item.is_enabled;
  sale_price = item.sale_price;
  support_price = item.support_price;
  notes = item.notes;
}

abbrev map_offer : Option CustomerServiceConfig → Option Offer
map_offer none = none
map_offer (some c) = some (offer_of c)

-- The abstract view: the offer to a customer of a service.
abbrev pub offer_at : Database → ℕ → ℕ → Option Offer
offer_at d customer_id service_id =
    map_offer (find_where (is_config customer_id service_id) d.service_configs)

-- The specification of a bulk upsert: the offers of the request win over the old ones.
abbrev pub offered : List CustomerServiceConfigCreate → ℕ → Option Offer → Option Offer
offered [] service_id old = old
offered (item ∷ items) service_id old =
    if item.service_id == service_id then some (item_offer item) else offered items service_id old

-- One item of the loop: its entry is set, and the others are found as before.
record Sets (customer_id : ℕ) (item : CustomerServiceConfigCreate) (s t : Session) : Type 0 where
  pub kept : t.committed ≡ s.committed
  pub others :
      (c k : ℕ)
      → (c == customer_id && k == item.service_id) ≡ false
      → find_where (is_config c k) t.current.service_configs
        ≡ find_where (is_config c k) s.current.service_configs
  pub own :
      map_offer (find_where (is_config customer_id item.service_id) t.current.service_configs)
      ≡ some (item_offer item)

upsert_item_lem :
    (new_id customer_id : ℕ) (existing : Option CustomerServiceConfig) (service : Option Service)
    (item : CustomerServiceConfigCreate) (s : Session)
    → find_where (is_config customer_id item.service_id) s.current.service_configs ≡ existing
    → Ends
        (upsert_item new_id customer_id existing service item s)
        (λ _ t. Sets customer_id item s t)
        (λ e t. t.committed ≡ s.committed)
unfolding upsert_item new_config with_item validate_service_for_create
upsert_item_lem new_id customer_id none none item s e =
    Ends-bind (validate_service_for_create none) _ s (Ends-raised refl)
upsert_item_lem new_id customer_id none (some service) item s e =
    Ends-bind (validate_service_for_create (some service)) _ s (
      Ends-fail_if _ 422 _ s
        (λ active. Ends-ok (record {
          kept = refl;
          others = λ c k other.
              find_where_appended_ne (is_config c k) (new_config new_id customer_id item)
                s.current.service_configs (ground arith);
          own = ap map_offer (
              find_where_appended (is_config customer_id item.service_id)
                (new_config new_id customer_id item) s.current.service_configs e (ground arith));
        }))
        refl)
upsert_item_lem new_id customer_id (some existing) service item s e = Ends-ok (record {
  kept = refl;
  others = λ c k other.
      find_where-update_where_ne (is_config customer_id item.service_id) (is_config c k)
        (with_item item) s.current.service_configs (λ y h. (ground arith, ground arith));
  own = ap map_offer (
      find_where-update_where (is_config customer_id item.service_id) (with_item item)
        s.current.service_configs (λ y. refl) e);
})

-- The request and the pre-state agree on the entries that are still to be set.
abbrev AsBefore : ℕ → List CustomerServiceConfigCreate → Database → Database → Type 0
AsBefore customer_id items before now =
    (k : ℕ)
    → member k (map item_service_id items) ≡ true
    → find_where (is_config customer_id k) now.service_configs
      ≡ find_where (is_config customer_id k) before.service_configs

-- What the loop does to the view.
abbrev Overrides : ℕ → List CustomerServiceConfigCreate → Database → Database → Type 0
Overrides customer_id items d e =
    (c k : ℕ)
    → offer_at e c k
      ≡ (if c == customer_id then offered items k (offer_at d c k) else offer_at d c k)

offered_absent :
    (items : List CustomerServiceConfigCreate) (k : ℕ) (old : Option Offer)
    → member k (map item_service_id items) ≡ false
    → offered items k old ≡ old
offered_absent [] k old h = refl
offered_absent (item ∷ items) k old h = ground (arith, offered_absent items k old)

member_apart : (j k : ℕ) (xs : List ℕ) → member k xs ≡ true → member j xs ≡ false → (k == j) ≡ false
member_apart j k xs h g = elim (Bool-cases (k == j)) [
  | inr apart ↦ apart
  | inl same ↦ let eq : k ≡ j = (==_iff k j).0 same in cc
]

module _ (customer_id : ℕ) (item : CustomerServiceConfigCreate)
    (items : List CustomerServiceConfigCreate) (s t : Session) (e : Database)
    (sets : Sets customer_id item s t) (rest : Overrides customer_id items t.current e) where
  Overrides-own :
      member item.service_id (map item_service_id items) ≡ false
      → offer_at e customer_id item.service_id ≡ some (item_offer item)
  Overrides-own unset =
      rest customer_id item.service_id
      ∙ ground (
        arith,
        offered_absent items item.service_id (offer_at t.current customer_id item.service_id) unset,
        sets.own,
      )

  Overrides-step :
      member item.service_id (map item_service_id items) ≡ false
      → Overrides customer_id (item ∷ items) s.current e
  Overrides-step unset c k = elim (Bool-cases (c == customer_id && k == item.service_id)) [
    | inl own ↦
        let cs : c ≡ customer_id = ground arith in
        let ks : k ≡ item.service_id = ground arith in
        subst
          (λ x. offer_at e x k ≡ (
            if x == customer_id
            then offered (item ∷ items) k (offer_at s.current x k)
            else offer_at s.current x k))
          (sym cs)
          (subst
            (λ x. offer_at e customer_id x ≡ (
              if customer_id == customer_id
              then offered (item ∷ items) x (offer_at s.current customer_id x)
              else offer_at s.current customer_id x))
            (sym ks) (Overrides-own unset ∙ ground arith))
    | inr other ↦ rest c k ∙ ground (arith, ap map_offer (sets.others c k other))
  ]

upsert_items_lem :
    (fresh : ℕ → ℕ) (n customer_id : ℕ) (before : Database)
    (items : List CustomerServiceConfigCreate) (s : Session)
    → all_distinct (map item_service_id items) ≡ true
    → AsBefore customer_id items before s.current
    → Ends
        (upsert_items fresh n customer_id before items s)
        (λ _ t. (t.committed ≡ s.committed) × Overrides customer_id items s.current t.current)
        (λ e t. t.committed ≡ s.committed)
unfolding upsert_items
upsert_items_lem fresh n customer_id before [] s distinct same = Ends-ok (refl, λ c k. ground arith)
upsert_items_lem fresh n customer_id before (item ∷ items) s distinct same =
    Ends-then
      (upsert_item (fresh n) customer_id
        (find_where (is_config customer_id item.service_id) before.service_configs)
        (find_row service_id_of item.service_id before.services) item)
      _ s (upsert_item_lem (fresh n) customer_id _ _ item s (same item.service_id (ground arith)))
      (λ _ t sets.
        Ends-mono (upsert_items fresh (suc n) customer_id before items t)
          (λ _ u (kept, rest). (
            kept ∙ sets.kept,
            Overrides-step customer_id item items s t u.current sets rest (ground arith),
          ))
          (λ e u kept. kept ∙ sets.kept)
          (upsert_items_lem fresh (suc n) customer_id before items t (ground arith) (λ k m.
            sets.others customer_id k
              (ground (arith, member_apart item.service_id k (map item_service_id items) m))
            ∙ same k (ground arith))))
      (λ e t kept. kept)

customer_lem : (k : ℕ) (s : Session) → Checks (get_customer_or_404 k) s (λ _. Unit {0})
unfolding get_customer_or_404
customer_lem k s = record {
  checks =
      Ends-reads (λ d. find_row customer_id_of k d.customers) _ s
        (Ends-bind (or_fail (find_row customer_id_of k s.current.customers) 404 _) _ s (
          Ends-or_fail (find_row customer_id_of k s.current.customers) 404 _ s
            (λ c e. Ends-ok (refl, tt)) refl));
}

-- A bulk upsert is refused and leaves the database alone, or the request names each service once,
-- and every offer of the customer to a service that it names is what it says, and every other offer,
-- of this customer and of the others, is what it was.
pub bulk_upsert-offered :
    (violation : Database → Option Text) (fresh : ℕ → ℕ) (order_by : List Joined → List Joined)
    (customer_id : ℕ) (items : List CustomerServiceConfigCreate) (d : Database)
    → Ends
        (bulk_upsert violation fresh order_by customer_id items (begin d))
        (λ rows t.
          (all_distinct (map item_service_id items) ≡ true)
          × ((c k : ℕ)
              → offer_at t.committed c k
                ≡ (if c == customer_id then offered items k (offer_at d c k) else offer_at d c k)))
        (λ e t. t.committed ≡ d)
unfolding bulk_upsert
bulk_upsert-offered violation fresh order_by customer_id items d =
    Ends-checks (get_customer_or_404 customer_id) _ (begin d) (customer_lem customer_id (begin d))
      (λ _ _.
        Ends-bind (fail_if (not (all_distinct (map item_service_id items))) 422 _) _ (begin d) (
          Ends-fail_if (not (all_distinct (map item_service_id items))) 422 _ (begin d)
            (λ twice.
              let distinct : all_distinct (map item_service_id items) ≡ true = ground arith in
              Ends-reads (λ e. e) _ (begin d)
                (Ends-then (upsert_items fresh 0 customer_id d items) _ (begin d)
                  (upsert_items_lem fresh 0 customer_id d items (begin d) distinct (λ k m. refl))
                  (λ _ t (kept, overrides).
                    Ends-bind (commit_or_rollback violation config_integrity_exception) _ t (
                      Ends-commit_or_rollback violation config_integrity_exception t
                        (Ends-ok (distinct, overrides)) (λ text. kept)))
                  (λ e t kept. kept)))
            refl))
      (λ e. refl)
