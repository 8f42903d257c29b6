-- ===== src/Customers/Refines.antt =====
-- What `CustomerIncomeService.bulk_upsert` of app/modules/customers/service.py checks and stores, on
-- the view of the income tables as maps by customer.
use zaraamad_portal_be.Base.{
  ℕ, true, false, Option, none, some, List, [], ◌∷◌, map, ◌≡◌, refl, arith, if◌then◌else◌, All,
  find_row, key-find_row, member, all_distinct, filter_map,
}
use zaraamad_portal_be.Text.{Text}
use zaraamad_portal_be.Database.{
  Customer, truthy, CustomerIncomeBucket, CustomerIncomeMonthlyReport, Database,
}
use zaraamad_portal_be.Session.{Session, begin}
use zaraamad_portal_be.Session.Ends.{
  Ends, Ends-ok, Ends-bind, Ends-modify, Ends-checks, Ends-commit_or_rollback,
}
use zaraamad_portal_be.Users.{customer_id_of}
use zaraamad_portal_be.Customers.Income.{
  CustomerIncomeBulkUpsertItemCreate, item_customer_id, validate_payload, has_active, all_active,
  check_customers,
}
use zaraamad_portal_be.Customers.Stored.{
  buckets_at, reports_at, summary_at, wanted_buckets, wanted_reports, wanted_summary,
  put_items-summary,
}
use zaraamad_portal_be.Customers.Upsert.{
  IncomeDetail, detail_of, detail_at, put_items, delete_incomes, report_customer_ids,
  income_refused, bulk_upsert,
}
use zaraamad_portal_be.Customers.Sound.{IsSound, payload_lem, customers_lem}
use zaraamad_portal_be.Customers.Replaced.{
  replaced, replaced-buckets, replaced-reports, put_items-customers,
}

active_found :
    (o : Option Customer)
    → elim o [ none ↦ false | some c ↦ truthy c.is_active ] ≡ true
    → (c : Customer) × (o ≡ some c)
active_found none h = cc
active_found (some c) h = (c, refl)

-- Every customer that is named has one entry of the result, in the order of the request.
module _ (order_buckets : List CustomerIncomeBucket → List CustomerIncomeBucket)
    (order_reports : List CustomerIncomeMonthlyReport → List CustomerIncomeMonthlyReport) where
  entries_lem :
      (d e : Database) (ks : List ℕ)
      → e.customers ≡ d.customers
      → all_active d ks ≡ true
      → map
          (λ (x : IncomeDetail). x.customer.id)
          (filter_map (detail_at order_buckets order_reports e) ks)
        ≡ ks
  unfolding detail_of
  entries_lem d e [] same h = refl
  entries_lem d e (k ∷ ks) same h =
      let here : has_active d k ≡ true = ground arith in
      let rest : all_active d ks ≡ true = ground arith in
      let (c, found) = active_found (find_row customer_id_of k d.customers) here in
      let key : c.id ≡ k = key-find_row customer_id_of k d.customers found in
      let there : find_row customer_id_of k e.customers ≡ some c = rw same found in
      rw (detail_at, there, key, entries_lem d e ks same rest) refl

-- What a bulk upsert of the incomes checks, stores and returns.
pub record Refreshed (items : List CustomerIncomeBulkUpsertItemCreate) (d : Database)
    (details : List IncomeDetail) (t : Session) : Type 0 where
  pub distinct : all_distinct (map item_customer_id items) ≡ true
  pub sound : All IsSound items
  pub active : all_active d (map item_customer_id items) ≡ true
  pub durable : t.current ≡ t.committed
  pub summaries : (k : ℕ) → summary_at t.committed k ≡ wanted_summary k items (summary_at d k)
  pub buckets :
      (k : ℕ)
      → buckets_at t.committed k
        ≡ (if member k (map item_customer_id items) then wanted_buckets k items else buckets_at d k)
  pub reports :
      (k : ℕ)
      → reports_at t.committed k
        ≡ (if member k (report_customer_ids items) then wanted_reports k items else reports_at d k)
  pub entries : map (λ (x : IncomeDetail). x.customer.id) details ≡ map item_customer_id items

module _ (order_buckets : List CustomerIncomeBucket → List CustomerIncomeBucket)
    (order_reports : List CustomerIncomeMonthlyReport → List CustomerIncomeMonthlyReport)
    (violation : Database → Option Text) (fresh : ℕ → ℕ) where
  -- A bulk upsert of incomes is refused, and then nothing is durable and nothing is left pending,
  -- or: no customer is named twice, all are active, and no item repeats a bucket code or a month or
  -- has buckets that do not add up; the durable buckets of each named customer are those of the
  -- request, the reports are too where the item has reports, the summary is the one of the request,
  -- all others are as they were, and the result has one entry for each item in its order.
  pub bulk_upsert-Refreshed :
      (items : List CustomerIncomeBulkUpsertItemCreate) (d : Database)
      → Ends
          (bulk_upsert order_buckets order_reports violation fresh items (begin d))
          (λ details t. Refreshed items d details t)
          (λ e t. t ≡ begin d)
  unfolding bulk_upsert
  bulk_upsert-Refreshed items d =
      let after = replaced fresh items d in
      Ends-checks (validate_payload items) _ (begin d) (payload_lem items (begin d))
        (λ _ (distinct, sound).
          Ends-checks (check_customers (map item_customer_id items)) _ (begin d)
            (customers_lem (map item_customer_id items) (begin d))
            (λ _ active.
              Ends-modify (delete_incomes (map item_customer_id items) (report_customer_ids items))
                _ (begin d)
                (Ends-modify (put_items fresh 0 items) _ _ (
                  Ends-bind _ _ _ (
                    Ends-commit_or_rollback violation income_refused _
                      (Ends-ok (record {
                        distinct = distinct;
                        sound = sound;
                        active = active;
                        durable = refl;
                        summaries = λ k. put_items-summary fresh 0 k items _;
                        buckets = replaced-buckets fresh items d;
                        reports = replaced-reports fresh items d;
                        entries =
                            entries_lem order_buckets order_reports d after
                              (map item_customer_id items) (put_items-customers fresh 0 items _)
                              active;
                      }))
                      (λ text. refl)))))
            (λ e. refl))
        (λ e. refl)
