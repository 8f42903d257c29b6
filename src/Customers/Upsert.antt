-- ===== src/Customers/Upsert.antt =====
-- `CustomerIncomeService.bulk_upsert` and `get_detail` of app/modules/customers/service.py.
-- `fresh` gives the keys of the new rows, and the orders of the rows are parameters.
use zaraamad_portal_be.Base.{
  ℕ, suc, ◌+◌, Bool, not, ◌==◌, Option, none, some, List, [], ◌∷◌, ◌++◌, map, length, keep,
  find_row, upsert, member, filter_map, is_some,
}
use zaraamad_portal_be.Text.{Text}
use zaraamad_portal_be.Http.{Exception, http_exception, customer_not_found, data_integrity_error}
use zaraamad_portal_be.Database.{
  Customer, CustomerIncomeSummary, CustomerIncomeBucket, CustomerIncomeMonthlyReport, Database,
  truthy,
}
use zaraamad_portal_be.Session.{
  Action, reads, fail_if, or_fail, modify, commit_or_rollback, ◌>>=◌, ◌>>◌,
}
use zaraamad_portal_be.Identity.{CurrentUser}
use zaraamad_portal_be.Access.{validate_customer_access}
use zaraamad_portal_be.Users.{customer_id_of}
use zaraamad_portal_be.Customers.Income.{
  CustomerIncomeSummaryCreate, CustomerIncomeBucketCreate, CustomerIncomeMonthlyReportCreate,
  CustomerIncomeBulkUpsertItemCreate, item_customer_id, validate_payload, check_customers,
}

abbrev pub summary_key : CustomerIncomeSummary → ℕ
summary_key x = x.customer_id

abbrev pub is_bucket_of : ℕ → CustomerIncomeBucket → Bool
is_bucket_of k b = b.customer_id == k

abbrev pub is_report_of : ℕ → CustomerIncomeMonthlyReport → Bool
is_report_of k r = r.customer_id == k

-- The summary of a customer who has none yet, before its amounts are set.
abbrev pub new_summary : ℕ → CustomerIncomeSummary
new_summary k = record {
  customer_id = k;
  registered_income_amount = none;
  issued_bill_count = none;
  paid_bill_count = none;
  collection_rate_percent = none;
}

abbrev pub with_summary :
    CustomerIncomeSummaryCreate → CustomerIncomeSummary → CustomerIncomeSummary
with_summary dto x = record x {
  registered_income_amount = dto.registered_income_amount;
  issued_bill_count = dto.issued_bill_count;
  paid_bill_count = dto.paid_bill_count;
  collection_rate_percent = dto.collection_rate_percent;
}

abbrev pub new_bucket : ℕ → ℕ → CustomerIncomeBucketCreate → CustomerIncomeBucket
new_bucket new_id k dto = record {
  id = new_id;
  customer_id = k;
  bucket_code = dto.bucket_code;
  bucket_name = dto.bucket_name;
  registered_income_amount = dto.registered_income_amount;
}

abbrev pub new_report : ℕ → ℕ → CustomerIncomeMonthlyReportCreate → CustomerIncomeMonthlyReport
new_report new_id k dto = record {
  id = new_id;
  customer_id = k;
  month = dto.month;
  registered_income_amount = dto.registered_income_amount;
  issued_bill_count = dto.issued_bill_count;
  paid_bill_count = dto.paid_bill_count;
  collection_rate_percent = dto.collection_rate_percent;
}

unfoldable pub new_buckets :
    (ℕ → ℕ) → ℕ → ℕ → List CustomerIncomeBucketCreate → List CustomerIncomeBucket
new_buckets fresh n k [] = []
new_buckets fresh n k (b ∷ bs) = new_bucket (fresh n) k b ∷ new_buckets fresh (suc n) k bs

unfoldable pub new_reports :
    (ℕ → ℕ) → ℕ → ℕ → List CustomerIncomeMonthlyReportCreate → List CustomerIncomeMonthlyReport
new_reports fresh n k [] = []
new_reports fresh n k (r ∷ rs) = new_report (fresh n) k r ∷ new_reports fresh (suc n) k rs

abbrev pub reports_or_none :
    Option (List CustomerIncomeMonthlyReportCreate) → List CustomerIncomeMonthlyReportCreate
reports_or_none none = []
reports_or_none (some reports) = reports

-- One item of the loop: its summary is found or added, and its buckets and reports are added.
unfoldable pub put_item : (ℕ → ℕ) → ℕ → CustomerIncomeBulkUpsertItemCreate → Database → Database
unfolding new_buckets new_reports
put_item fresh n item d = record d {
  income_summaries =
      upsert (λ (x : CustomerIncomeSummary). x.customer_id == item.customer_id)
        (new_summary item.customer_id) (with_summary item.summary) d.income_summaries;
  income_buckets = d.income_buckets ++ new_buckets fresh n item.customer_id item.buckets;
  income_monthly_reports =
      d.income_monthly_reports
      ++ new_reports fresh n item.customer_id (reports_or_none item.monthly_reports);
}

abbrev pub used : CustomerIncomeBulkUpsertItemCreate → ℕ
used item = length item.buckets + length (reports_or_none item.monthly_reports)

unfoldable pub put_items :
    (ℕ → ℕ) → ℕ → List CustomerIncomeBulkUpsertItemCreate → Database → Database
unfolding put_item
put_items fresh n [] d = d
put_items fresh n (item ∷ items) d = put_items fresh (n + used item) items (put_item fresh n item d)

-- `monthly_report_customer_ids`
abbrev pub report_customer_ids : List CustomerIncomeBulkUpsertItemCreate → List ℕ
report_customer_ids items =
    map item_customer_id
      (keep (λ (item : CustomerIncomeBulkUpsertItemCreate). is_some item.monthly_reports) items)

-- The two deletions in front of the loop.
abbrev pub delete_incomes : List ℕ → List ℕ → Database → Database
delete_incomes customer_ids report_ids d = record d {
  income_buckets =
      keep (λ (b : CustomerIncomeBucket). not (member b.customer_id customer_ids)) d.income_buckets;
  income_monthly_reports =
      keep (λ (r : CustomerIncomeMonthlyReport). not (member r.customer_id report_ids))
        d.income_monthly_reports;
}

pub record IncomeDetail : Type 0 where
  pub customer : Customer
  pub summary : Option CustomerIncomeSummary
  pub buckets : List CustomerIncomeBucket
  pub monthly_reports : List CustomerIncomeMonthlyReport

abbrev pub income_refused : Text → Exception
income_refused error_text = http_exception 409 data_integrity_error

abbrev customer_is_active : Customer → Bool
customer_is_active c = truthy c.is_active

module _ (order_buckets : List CustomerIncomeBucket → List CustomerIncomeBucket)
    (order_reports : List CustomerIncomeMonthlyReport → List CustomerIncomeMonthlyReport) where
  unfoldable pub detail_of : Database → Customer → IncomeDetail
  detail_of d customer = record {
    customer = customer;
    summary = find_row summary_key customer.id d.income_summaries;
    buckets = order_buckets (keep (is_bucket_of customer.id) d.income_buckets);
    monthly_reports = order_reports (keep (is_report_of customer.id) d.income_monthly_reports);
  }

  -- The entry of the result of `bulk_upsert` for a customer.
  abbrev pub detail_at : Database → ℕ → Option IncomeDetail
  detail_at d k = elim (find_row customer_id_of k d.customers) [
    | none ↦ none
    | some customer ↦ some (detail_of d customer)
  ]

  unfoldable pub get_detail : ℕ → CurrentUser → Action IncomeDetail
  get_detail customer_id user = do
    found ← reads (λ d. find_row customer_id_of customer_id d.customers)
    customer ← or_fail found 404 customer_not_found
    fail_if (not (customer_is_active customer)) 404 customer_not_found
    validate_customer_access user customer.id
    reads (λ d. detail_of d customer)

  module _ (violation : Database → Option Text) (fresh : ℕ → ℕ) where
    unfoldable pub bulk_upsert :
        List CustomerIncomeBulkUpsertItemCreate → Action (List IncomeDetail)
    unfolding validate_payload check_customers put_items commit_or_rollback
    bulk_upsert items = do
      validate_payload items
      check_customers (map item_customer_id items)
      modify (delete_incomes (map item_customer_id items) (report_customer_ids items))
      modify (put_items fresh 0 items)
      commit_or_rollback violation income_refused
      reads (λ d. filter_map (detail_at d) (map item_customer_id items))
