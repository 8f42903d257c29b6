-- ===== src/Customers/Income.antt =====
-- `CustomerIncomeMutationPolicy` and `CustomerIncomeService.bulk_upsert` and `get_detail` of
-- app/modules/customers/service.py: the incomes that an import or an admin sets for customers.
-- `fresh` gives the keys of the new rows.
use zaraamad_portal_be.Base.{
  ℕ, Bool, true, false, not, ◌&&◌, ◌||◌, Option, none, some, List, [], ◌∷◌, map, find_row,
  all_distinct, is_some,
}
use zaraamad_portal_be.Base.Int.{ℤ, pos, ◌+ℤ◌, int_eq, Float}
use zaraamad_portal_be.Text.{Text, text_eq}
use zaraamad_portal_be.Http.{
  duplicate_customer_income_customer, duplicate_customer_income_bucket_code,
  duplicate_customer_income_report_month, customer_income_bucket_total_mismatch,
  customer_id_invalid_or_inactive,
}
use zaraamad_portal_be.Database.{Database, truthy}
use zaraamad_portal_be.Session.{Action, pure, reads, fail_if, ◌>>=◌, ◌>>◌}
use zaraamad_portal_be.Users.{customer_id_of}

-- The requests of app/modules/customers/dtos.py.
pub record CustomerIncomeSummaryCreate : Type 0 where
  pub registered_income_amount : Option ℤ
  pub issued_bill_count : Option ℤ
  pub paid_bill_count : Option ℤ
  pub collection_rate_percent : Option Float

pub record CustomerIncomeBucketCreate : Type 0 where
  pub bucket_code : Text
  pub bucket_name : Option Text
  pub registered_income_amount : Option ℤ

pub record CustomerIncomeMonthlyReportCreate : Type 0 where
  pub month : Text
  pub registered_income_amount : Option ℤ
  pub issued_bill_count : Option ℤ
  pub paid_bill_count : Option ℤ
  pub collection_rate_percent : Option Float

pub record CustomerIncomeBulkUpsertItemCreate : Type 0 where
  pub customer_id : ℕ
  pub summary : CustomerIncomeSummaryCreate
  pub buckets : List CustomerIncomeBucketCreate
  pub monthly_reports : Option (List CustomerIncomeMonthlyReportCreate)

abbrev pub item_customer_id : CustomerIncomeBulkUpsertItemCreate → ℕ
item_customer_id item = item.customer_id

-- `len(texts) == len(set(texts))`
abbrev pub text_member : Text → List Text → Bool
text_member x [] = false
text_member x (y ∷ ys) = text_eq y x || text_member x ys

abbrev pub texts_distinct : List Text → Bool
texts_distinct [] = true
texts_distinct (x ∷ xs) = not (text_member x xs) && texts_distinct xs

-- `sum(bucket_amounts)` of the amounts that are not null.
unfoldable pub bucket_total : ℤ → List CustomerIncomeBucketCreate → ℤ
bucket_total total [] = total
bucket_total total (b ∷ bs) = elim b.registered_income_amount [
  | none ↦ bucket_total total bs
  | some amount ↦ bucket_total (total +ℤ amount) bs
]

unfoldable pub has_bucket_values : List CustomerIncomeBucketCreate → Bool
has_bucket_values [] = false
has_bucket_values (b ∷ bs) = is_some b.registered_income_amount || has_bucket_values bs

abbrev pub amount_is : Option ℤ → ℤ → Bool
amount_is none total = false
amount_is (some amount) total = int_eq amount total

-- The test of `_validate_bucket_total`: the item passes it.
unfoldable pub bucket_total_fits : CustomerIncomeBulkUpsertItemCreate → Bool
unfolding bucket_total has_bucket_values
bucket_total_fits item =
    (not (is_some item.summary.registered_income_amount) && not (has_bucket_values item.buckets))
    || amount_is item.summary.registered_income_amount (bucket_total (pos 0) item.buckets)

abbrev pub bucket_codes : List CustomerIncomeBucketCreate → List Text
bucket_codes bs = map (λ (b : CustomerIncomeBucketCreate). b.bucket_code) bs

abbrev pub months_distinct : Option (List CustomerIncomeMonthlyReportCreate) → Bool
months_distinct none = true
months_distinct (some reports) =
    texts_distinct (map (λ (r : CustomerIncomeMonthlyReportCreate). r.month) reports)

-- One item of the loop of `validate_payload`.
unfoldable pub validate_item : CustomerIncomeBulkUpsertItemCreate → Action (Unit {0})
validate_item item = do
  fail_if (not (texts_distinct (bucket_codes item.buckets))) 422
      duplicate_customer_income_bucket_code
  fail_if (not (months_distinct item.monthly_reports)) 422 duplicate_customer_income_report_month
  fail_if (not (bucket_total_fits item)) 422 customer_income_bucket_total_mismatch

unfoldable pub validate_items : List CustomerIncomeBulkUpsertItemCreate → Action (Unit {0})
unfolding validate_item
validate_items [] = pure tt
validate_items (item ∷ items) = do validate_item item; validate_items items

unfoldable pub validate_payload : List CustomerIncomeBulkUpsertItemCreate → Action (Unit {0})
unfolding validate_items
validate_payload items = do
  fail_if (not (all_distinct (map item_customer_id items))) 422 duplicate_customer_income_customer
  validate_items items

-- `get_active_customer_map`: as many active customers as the request has keys, so each key has one.
abbrev pub has_active : Database → ℕ → Bool
has_active d k = elim (find_row customer_id_of k d.customers) [
  | none ↦ false
  | some c ↦ truthy c.is_active
]

abbrev pub all_active : Database → List ℕ → Bool
all_active d [] = true
all_active d (k ∷ ks) = has_active d k && all_active d ks

unfoldable pub check_customers : List ℕ → Action (Unit {0})
check_customers customer_ids = do
  fits ← reads (λ d. all_active d customer_ids)
  fail_if (not fits) 422 customer_id_invalid_or_inactive
