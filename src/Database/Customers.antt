-- ===== src/Database/Customers.antt =====
-- The rows of app/modules/customers/schemas.py. Times are numbers of seconds; the connections to
-- the customers' own databases are left out.
use zaraamad_portal_be.Base.{ℕ, Bool, Option}
use zaraamad_portal_be.Base.Int.{ℤ, Float}
use zaraamad_portal_be.Text.{Text}

pub record Customer : Type 0 where
  pub id : ℕ
  pub name : Option Text
  pub manager_name : Option Text
  pub grade : Option ℤ
  pub is_active : Option Bool

pub record CustomerBridgeConfig : Type 0 where
  pub customer_id : ℕ
  pub bridge_base_url : Option Text
  pub bridge_is_enabled : Option Bool
  pub last_online_status : Option Bool
  pub last_health_checked_at : Option ℕ
  pub last_health_error : Option Text
  pub cached_subscription_start_date : Option Text
  pub cached_subscription_end_date : Option Text
  pub cached_subscription_grace_period_end_date : Option Text
  pub cached_subscription_is_active : Option Bool
  pub cached_subscription_status_message : Option Text
  pub last_subscription_synced_at : Option ℕ
  pub last_subscription_error : Option Text

pub record CustomerIncomeSummary : Type 0 where
  pub customer_id : ℕ
  pub registered_income_amount : Option ℤ
  pub issued_bill_count : Option ℤ
  pub paid_bill_count : Option ℤ
  pub collection_rate_percent : Option Float

pub record CustomerIncomeBucket : Type 0 where
  pub id : ℕ
  pub customer_id : ℕ
  pub bucket_code : Text
  pub bucket_name : Option Text
  pub registered_income_amount : Option ℤ

pub record CustomerIncomeMonthlyReport : Type 0 where
  pub id : ℕ
  pub customer_id : ℕ
  pub month : Text
  pub registered_income_amount : Option ℤ
  pub issued_bill_count : Option ℤ
  pub paid_bill_count : Option ℤ
  pub collection_rate_percent : Option Float
