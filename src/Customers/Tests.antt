-- ===== src/Customers/Tests.antt =====
-- Runs of the income calls of app/modules/customers/service.py.
use zaraamad_portal_be.Base.{ℕ, suc, true, none, some, List, [], ◌∷◌, Option, ◌≡◌, refl}
use zaraamad_portal_be.Base.Int.{ℤ, pos}
use zaraamad_portal_be.Text.{Text, codes}
use zaraamad_portal_be.Http.{
  raised, http_exception, customer_income_bucket_total_mismatch, customer_id_invalid_or_inactive,
}
use zaraamad_portal_be.Database.{
  Customer, CustomerIncomeBucket, CustomerIncomeMonthlyReport, Database, empty_database,
}
use zaraamad_portal_be.Session.{begin, ◌>>=◌}
use zaraamad_portal_be.Session.Ends.{Ends}
use zaraamad_portal_be.Customers.Income.{
  CustomerIncomeBucketCreate, CustomerIncomeBulkUpsertItemCreate, bucket_total_fits,
  validate_payload, check_customers,
}
use zaraamad_portal_be.Customers.Stored.{buckets_at}
use zaraamad_portal_be.Customers.Upsert.{new_bucket, put_items, bulk_upsert}
use zaraamad_portal_be.Customers.Refines.{Refreshed, bulk_upsert-Refreshed}

abbrev town : Option ℤ → ℕ → Customer
town grade k = record {
  id = k;
  name = none;
  manager_name = none;
  grade = grade;
  is_active = some true;
}

abbrev bucket_dto : Text → ℕ → CustomerIncomeBucketCreate
bucket_dto code n = record {
  bucket_code = code;
  bucket_name = none;
  registered_income_amount = some (pos n);
}

-- Two towns, the first of which has an old bucket.
abbrev towns : Database
towns = record empty_database {
  customers = town none 5 ∷ town (some (pos 1)) 6 ∷ [];
  income_buckets = new_bucket 90 5 (bucket_dto (codes "old") 9) ∷ [];
}

abbrev item : ℕ → ℕ → CustomerIncomeBulkUpsertItemCreate
item k total = record {
  customer_id = k;
  summary = record {
    registered_income_amount = some (pos total);
    issued_bill_count = none;
    paid_bill_count = none;
    collection_rate_percent = none;
  };
  buckets = bucket_dto (codes "a") 30 ∷ bucket_dto (codes "b") 12 ∷ [];
  monthly_reports = none;
}

abbrev fresh : ℕ → ℕ
fresh n = suc n

abbrev accepts : Database → Option Text
accepts d = none

abbrev bucket_order : List CustomerIncomeBucket → List CustomerIncomeBucket
bucket_order rows = rows

abbrev report_order : List CustomerIncomeMonthlyReport → List CustomerIncomeMonthlyReport
report_order rows = rows

bulk_upsert-Refreshed_example :
    Ends
      (bulk_upsert bucket_order report_order accepts fresh
        (item 5 42 ∷ item 6 42 ∷ [])
        (begin towns))
      (λ details t. Refreshed (item 5 42 ∷ item 6 42 ∷ []) towns details t)
      (λ e t. t ≡ begin towns)
bulk_upsert-Refreshed_example =
    bulk_upsert-Refreshed bucket_order report_order accepts fresh (item 5 42 ∷ item 6 42 ∷ []) towns

old_bucket_goes :
    buckets_at
      (bulk_upsert bucket_order report_order accepts fresh
        (item 5 42 ∷ [])
        (begin towns)).1.committed
      5
    ≡ bucket_dto (codes "a") 30 ∷ bucket_dto (codes "b") 12 ∷ []
unfolding bulk_upsert ◌>>=◌ validate_payload check_customers put_items bucket_total_fits
old_bucket_goes = refl

mismatch_is_refused :
    (bulk_upsert bucket_order report_order accepts fresh (item 5 43 ∷ []) (begin towns)).0
    ≡ raised (http_exception 422 customer_income_bucket_total_mismatch)
unfolding bulk_upsert ◌>>=◌ validate_payload bucket_total_fits
mismatch_is_refused = refl

unknown_is_refused :
    (bulk_upsert bucket_order report_order accepts fresh (item 7 42 ∷ []) (begin towns)).0
    ≡ raised (http_exception 422 customer_id_invalid_or_inactive)
unfolding bulk_upsert ◌>>=◌ validate_payload check_customers bucket_total_fits
unknown_is_refused = refl
