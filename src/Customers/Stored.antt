-- ===== src/Customers/Stored.antt =====
-- The income tables of app/modules/customers/service.py as maps by customer: what a list of items
-- says of a customer, and what the deletions and the loop of `bulk_upsert` leave.
use mathlib.Core.List.{append-nil, append_assoc, map-append}
use zaraamad_portal_be.Base.{
  ℕ, suc, ◌+◌, not, ◌==◌, Option, some, List, [], ◌∷◌, ◌++◌, map, ◌≡◌, refl, sym, ◌∙◌, ap, arith,
  inl, inr, if◌then◌else◌, keep, keep-append, keep_disjoint, keep_within, find_row, find_row-upsert,
  member, Bool-cases,
}
use zaraamad_portal_be.Database.{
  CustomerIncomeSummary, CustomerIncomeBucket, CustomerIncomeMonthlyReport, Database,
}
use zaraamad_portal_be.Customers.Income.{
  CustomerIncomeSummaryCreate, CustomerIncomeBucketCreate, CustomerIncomeMonthlyReportCreate,
  CustomerIncomeBulkUpsertItemCreate,
}
use zaraamad_portal_be.Customers.Upsert.{
  summary_key, is_bucket_of, is_report_of, new_summary, with_summary, new_buckets, new_reports,
  reports_or_none, put_item, put_items, used,
}

-- What the tables say of a customer, without the keys of the rows.
abbrev bucket_dto : CustomerIncomeBucket → CustomerIncomeBucketCreate
bucket_dto b = record {
  bucket_code = b.bucket_code;
  bucket_name = b.bucket_name;
  registered_income_amount = b.registered_income_amount;
}

abbrev report_dto : CustomerIncomeMonthlyReport → CustomerIncomeMonthlyReportCreate
report_dto r = record {
  month = r.month;
  registered_income_amount = r.registered_income_amount;
  issued_bill_count = r.issued_bill_count;
  paid_bill_count = r.paid_bill_count;
  collection_rate_percent = r.collection_rate_percent;
}

abbrev pub buckets_at : Database → ℕ → List CustomerIncomeBucketCreate
buckets_at d k = map bucket_dto (keep (is_bucket_of k) d.income_buckets)

abbrev pub reports_at : Database → ℕ → List CustomerIncomeMonthlyReportCreate
reports_at d k = map report_dto (keep (is_report_of k) d.income_monthly_reports)

abbrev pub summary_at : Database → ℕ → Option CustomerIncomeSummary
summary_at d k = find_row summary_key k d.income_summaries

-- What the items say of a customer.
abbrev pub wanted_buckets :
    ℕ → List CustomerIncomeBulkUpsertItemCreate → List CustomerIncomeBucketCreate
wanted_buckets k [] = []
wanted_buckets k (item ∷ items) =
    (if item.customer_id == k then item.buckets else []) ++ wanted_buckets k items

abbrev pub wanted_reports :
    ℕ → List CustomerIncomeBulkUpsertItemCreate → List CustomerIncomeMonthlyReportCreate
wanted_reports k [] = []
wanted_reports k (item ∷ items) =
    (if item.customer_id == k then reports_or_none item.monthly_reports else [])
    ++ wanted_reports k items

abbrev saved_summary : ℕ → CustomerIncomeSummaryCreate → CustomerIncomeSummary
saved_summary k dto = record {
  customer_id = k;
  registered_income_amount = dto.registered_income_amount;
  issued_bill_count = dto.issued_bill_count;
  paid_bill_count = dto.paid_bill_count;
  collection_rate_percent = dto.collection_rate_percent;
}

abbrev pub wanted_summary :
    ℕ
    → List CustomerIncomeBulkUpsertItemCreate
    → Option CustomerIncomeSummary
    → Option CustomerIncomeSummary
wanted_summary k [] old = old
wanted_summary k (item ∷ items) old =
    wanted_summary k items
      (if item.customer_id == k then some (saved_summary item.customer_id item.summary) else old)

new_buckets-at :
    (fresh : ℕ → ℕ) (n j k : ℕ) (bs : List CustomerIncomeBucketCreate)
    → map bucket_dto (keep (is_bucket_of k) (new_buckets fresh n j bs))
      ≡ (if j == k then bs else [])
unfolding new_buckets
new_buckets-at fresh n j k [] = ground arith
new_buckets-at fresh n j k (b ∷ bs) = ground (arith, new_buckets-at fresh (suc n) j k bs)

new_reports-at :
    (fresh : ℕ → ℕ) (n j k : ℕ) (rs : List CustomerIncomeMonthlyReportCreate)
    → map report_dto (keep (is_report_of k) (new_reports fresh n j rs))
      ≡ (if j == k then rs else [])
unfolding new_reports
new_reports-at fresh n j k [] = ground arith
new_reports-at fresh n j k (r ∷ rs) = ground (arith, new_reports-at fresh (suc n) j k rs)

put_item-buckets :
    (fresh : ℕ → ℕ) (n k : ℕ) (item : CustomerIncomeBulkUpsertItemCreate) (d : Database)
    → buckets_at (put_item fresh n item d) k
      ≡ buckets_at d k ++ (if item.customer_id == k then item.buckets else [])
unfolding put_item
put_item-buckets fresh n k item d =
    rw
      (
        keep-append (is_bucket_of k) d.income_buckets
            (new_buckets fresh n item.customer_id item.buckets),
        map-append bucket_dto (keep (is_bucket_of k) d.income_buckets)
            (keep (is_bucket_of k) (new_buckets fresh n item.customer_id item.buckets)),
        new_buckets-at fresh n item.customer_id k item.buckets,
      )
      refl

put_item-reports :
    (fresh : ℕ → ℕ) (n k : ℕ) (item : CustomerIncomeBulkUpsertItemCreate) (d : Database)
    → reports_at (put_item fresh n item d) k
      ≡ reports_at d k
        ++ (if item.customer_id == k then reports_or_none item.monthly_reports else [])
unfolding put_item
put_item-reports fresh n k item d =
    let rs = reports_or_none item.monthly_reports in
    rw
      (
        keep-append (is_report_of k) d.income_monthly_reports
            (new_reports fresh n item.customer_id rs),
        map-append report_dto (keep (is_report_of k) d.income_monthly_reports)
            (keep (is_report_of k) (new_reports fresh n item.customer_id rs)),
        new_reports-at fresh n item.customer_id k rs,
      )
      refl

put_item-summary :
    (fresh : ℕ → ℕ) (n k : ℕ) (item : CustomerIncomeBulkUpsertItemCreate) (d : Database)
    → summary_at (put_item fresh n item d) k ≡ (
        if item.customer_id == k
        then some (saved_summary item.customer_id item.summary)
        else summary_at d k)
unfolding put_item
put_item-summary fresh n k item d =
    find_row-upsert summary_key item.customer_id (new_summary item.customer_id)
      (saved_summary item.customer_id item.summary) (with_summary item.summary) k d.income_summaries
      (λ x e. ap (λ j. saved_summary j item.summary) e) refl refl

-- The loop appends what the items say of each customer …
pub put_items-buckets :
    (fresh : ℕ → ℕ) (n k : ℕ) (items : List CustomerIncomeBulkUpsertItemCreate) (d : Database)
    → buckets_at (put_items fresh n items d) k ≡ buckets_at d k ++ wanted_buckets k items
unfolding put_items
put_items-buckets fresh n k [] d = sym (append-nil (buckets_at d k))
put_items-buckets fresh n k (item ∷ items) d =
    put_items-buckets fresh (n + used item) k items (put_item fresh n item d)
    ∙ ap (λ bs. bs ++ wanted_buckets k items) (put_item-buckets fresh n k item d)
    ∙ append_assoc (buckets_at d k) (if item.customer_id == k then item.buckets else [])
        (wanted_buckets k items)

pub put_items-reports :
    (fresh : ℕ → ℕ) (n k : ℕ) (items : List CustomerIncomeBulkUpsertItemCreate) (d : Database)
    → reports_at (put_items fresh n items d) k ≡ reports_at d k ++ wanted_reports k items
unfolding put_items
put_items-reports fresh n k [] d = sym (append-nil (reports_at d k))
put_items-reports fresh n k (item ∷ items) d =
    put_items-reports fresh (n + used item) k items (put_item fresh n item d)
    ∙ ap (λ rs. rs ++ wanted_reports k items) (put_item-reports fresh n k item d)
    ∙ append_assoc (reports_at d k)
        (if item.customer_id == k then reports_or_none item.monthly_reports else [])
        (wanted_reports k items)

-- … and saves the summary of the last item of each customer.
pub put_items-summary :
    (fresh : ℕ → ℕ) (n k : ℕ) (items : List CustomerIncomeBulkUpsertItemCreate) (d : Database)
    → summary_at (put_items fresh n items d) k ≡ wanted_summary k items (summary_at d k)
unfolding put_items
put_items-summary fresh n k [] d = refl
put_items-summary fresh n k (item ∷ items) d =
    put_items-summary fresh (n + used item) k items (put_item fresh n item d)
    ∙ ap (wanted_summary k items) (put_item-summary fresh n k item d)

-- The rows of the customers that are named go, and the others stay.
pub deleted_lem :
    {A : Type 0} (owner : A → ℕ) (k : ℕ) (ks : List ℕ) (xs : List A)
    → keep (λ x. owner x == k) (keep (λ x. not (member (owner x) ks)) xs)
      ≡ (if member k ks then [] else keep (λ x. owner x == k) xs)
deleted_lem owner k ks xs = elim (Bool-cases (member k ks)) [
  | inl named ↦
      rw named (
        keep_disjoint (λ x. owner x == k) (λ x. not (member (owner x) ks)) xs (λ x h. ground arith))
  | inr other ↦
      rw other
        (keep_within (λ x. owner x == k) (λ x. not (member (owner x) ks)) xs (λ x h. ground arith))
]
