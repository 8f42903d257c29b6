-- ===== src/Customers/Replaced.antt =====
-- The income tables behind the deletions and the loop of `bulk_upsert` in
-- app/modules/customers/service.py, as maps by customer.
use mathlib.Core.List.{append-nil}
use zaraamad_portal_be.Base.{
  ℕ, ◌+◌, false, List, [], ◌∷◌, map, ◌≡◌, refl, ◌∙◌, arith, inl, inr, if◌then◌else◌, member,
  Bool-cases, Option-cases,
}
use zaraamad_portal_be.Database.{Database}
use zaraamad_portal_be.Customers.Income.{CustomerIncomeBulkUpsertItemCreate, item_customer_id}
use zaraamad_portal_be.Customers.Stored.{
  buckets_at, reports_at, wanted_buckets, wanted_reports, put_items-buckets, put_items-reports,
  deleted_lem,
}
use zaraamad_portal_be.Customers.Upsert.{
  put_item, put_items, used, delete_incomes, report_customer_ids,
}

-- The loop does not touch the customers.
pub put_items-customers :
    (fresh : ℕ → ℕ) (n : ℕ) (items : List CustomerIncomeBulkUpsertItemCreate) (d : Database)
    → (put_items fresh n items d).customers ≡ d.customers
unfolding put_items put_item
put_items-customers fresh n [] d = refl
put_items-customers fresh n (item ∷ items) d =
    put_items-customers fresh (n + used item) items (put_item fresh n item d)

-- The items say nothing of the other customers.
wanted_buckets_others :
    (k : ℕ) (items : List CustomerIncomeBulkUpsertItemCreate)
    → member k (map item_customer_id items) ≡ false
    → wanted_buckets k items ≡ []
wanted_buckets_others k [] e = refl
wanted_buckets_others k (item ∷ items) e = ground (arith, wanted_buckets_others k items)

wanted_reports_others :
    (k : ℕ) (items : List CustomerIncomeBulkUpsertItemCreate)
    → member k (report_customer_ids items) ≡ false
    → wanted_reports k items ≡ []
wanted_reports_others k [] e = refl
wanted_reports_others k (item ∷ items) e = elim (Option-cases item.monthly_reports) [
  | inl absent ↦
      let rest : member k (report_customer_ids items) ≡ false = rw absent at e in
      rw absent (ground (arith, wanted_reports_others k items rest))
  | inr (reports, present) ↦
      let rest = rw present at e in rw present (ground (arith, rest, wanted_reports_others k items))
]

module _ (fresh : ℕ → ℕ) (items : List CustomerIncomeBulkUpsertItemCreate) (d : Database) where
  abbrev pub replaced : Database
  replaced =
      put_items fresh 0 items
        (delete_incomes (map item_customer_id items) (report_customer_ids items) d)

  pub replaced-buckets :
      (k : ℕ)
      → buckets_at replaced k
        ≡ (if member k (map item_customer_id items) then wanted_buckets k items else buckets_at d k)
  replaced-buckets k =
      put_items-buckets fresh 0 k items
        (delete_incomes (map item_customer_id items) (report_customer_ids items) d)
      ∙ elim (Bool-cases (member k (map item_customer_id items))) [
        | inl named ↦
            rw
              (
                deleted_lem (λ b. b.customer_id) k (map item_customer_id items) d.income_buckets,
                named,
              )
              refl
        | inr other ↦
            rw
              (
                deleted_lem (λ b. b.customer_id) k (map item_customer_id items) d.income_buckets,
                other,
                wanted_buckets_others k items other,
              )
              (append-nil (buckets_at d k))
      ]

  pub replaced-reports :
      (k : ℕ)
      → reports_at replaced k
        ≡ (if member k (report_customer_ids items) then wanted_reports k items else reports_at d k)
  replaced-reports k =
      put_items-reports fresh 0 k items
        (delete_incomes (map item_customer_id items) (report_customer_ids items) d)
      ∙ elim (Bool-cases (member k (report_customer_ids items))) [
        | inl named ↦
            rw
              (
                deleted_lem (λ r. r.customer_id) k (report_customer_ids items)
                    d.income_monthly_reports,
                named,
              )
              refl
        | inr other ↦
            rw
              (
                deleted_lem (λ r. r.customer_id) k (report_customer_ids items)
                    d.income_monthly_reports,
                other,
                wanted_reports_others k items other,
              )
              (append-nil (reports_at d k))
      ]
