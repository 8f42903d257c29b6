-- ===== src/Customers/Sound.antt =====
-- What the checks of `CustomerIncomeMutationPolicy` in app/modules/customers/service.py let through.

use zaraamad_portal_be.Base.{ℕ, true, List, [], ◌∷◌, map, ◌≡◌, refl, arith, All, all_distinct}
use zaraamad_portal_be.Session.{Session}
use zaraamad_portal_be.Session.Ends.{
  Ends-ok, Ends-bind, Ends-mono, Ends-reads, Ends-fail_if, Ends-checks, Checks,
}
use zaraamad_portal_be.Customers.Income.{
  CustomerIncomeBulkUpsertItemCreate, item_customer_id, texts_distinct, bucket_codes,
  months_distinct, bucket_total_fits, validate_item, validate_items, validate_payload, all_active,
  check_customers,
}

-- No two buckets of the item have a code, no two reports a month, and the buckets add up.
pub record IsSound (item : CustomerIncomeBulkUpsertItemCreate) : Type 0 where
  pub codes : texts_distinct (bucket_codes item.buckets) ≡ true
  pub months : months_distinct item.monthly_reports ≡ true
  pub total : bucket_total_fits item ≡ true

item_lem :
    (item : CustomerIncomeBulkUpsertItemCreate) (s : Session)
    → Checks (validate_item item) s (λ _. IsSound item)
unfolding validate_item
item_lem item s = record {
  checks = Ends-bind _ _ s (
      Ends-fail_if _ 422 _ s
        (λ codes. Ends-bind _ _ s (
          Ends-fail_if _ 422 _ s
            (λ months.
              Ends-fail_if _ 422 _ s
                (λ total. (
                  refl,
                  record {
                    codes = ground (arith, codes);
                    months = ground (arith, months);
                    total = ground (arith, total);
                  },
                ))
                refl)
            refl))
        refl);
}

items_lem :
    (items : List CustomerIncomeBulkUpsertItemCreate) (s : Session)
    → Checks (validate_items items) s (λ _. All IsSound items)
unfolding validate_items
items_lem [] s = record { checks = Ends-ok (refl, tt) }
items_lem (item ∷ items) s = record {
  checks =
      Ends-checks (validate_item item) _ s (item_lem item s)
        (λ _ here.
          Ends-mono _ (λ _ t (same, rest). (same, (here, rest))) (λ e t same. same)
            (items_lem items s).checks)
        (λ e. refl);
}

pub payload_lem :
    (items : List CustomerIncomeBulkUpsertItemCreate) (s : Session)
    → Checks
        (validate_payload items)
        s
        (λ _. (all_distinct (map item_customer_id items) ≡ true) × All IsSound items)
unfolding validate_payload
payload_lem items s = record {
  checks = Ends-bind _ _ s (
      Ends-fail_if _ 422 _ s
        (λ distinct.
          Ends-mono _ (λ _ t (same, sound). (same, (ground (arith, distinct), sound)))
            (λ e t same. same) (items_lem items s).checks)
        refl);
}

pub customers_lem :
    (ks : List ℕ) (s : Session)
    → Checks (check_customers ks) s (λ _. all_active s.current ks ≡ true)
unfolding check_customers
customers_lem ks s = record {
  checks =
      Ends-reads (λ d. all_active d ks) _ s
        (Ends-fail_if _ 422 _ s (λ fits. (refl, ground (arith, fits))) refl);
}
