-- ===== src/Database/Catalog.antt =====
-- The rows of app/modules/service_catalog/schemas.py. Prices are at least 0, by the requests' own
-- bounds and the tables' check constraints.
use zaraamad_portal_be.Base.{ℕ, Bool, Option}
use zaraamad_portal_be.Base.Int.{ℤ}
use zaraamad_portal_be.Text.{Text}

pub record ServiceProject : Type 0 where
  pub id : ℕ
  pub name : Option Text
  pub description : Option Text
  pub sort_order : Option ℤ
  pub is_active : Option Bool

pub record ServiceGroup : Type 0 where
  pub id : ℕ
  pub name : Option Text
  pub description : Option Text
  pub sort_order : Option ℤ
  pub is_active : Option Bool

pub record Service : Type 0 where
  pub id : ℕ
  pub project_id : ℕ
  pub group_id : ℕ
  pub name : Option Text
  pub description : Option Text
  pub is_active : Option Bool
  pub sort_order : Option ℤ

pub record CustomerServiceConfig : Type 0 where
  pub id : ℕ
  pub customer_id : ℕ
  pub service_id : ℕ
  pub is_enabled : Option Bool
  pub sale_price : Option ℕ
  pub support_price : ℕ
  pub notes : Option Text

pub record CustomerServicePurchase : Type 0 where
  pub id : ℕ
  pub customer_id : ℕ
  pub created_by_user_id : ℕ
  pub notes : Option Text
  pub sale_total : ℕ
  pub support_total : ℕ
  pub grand_total : ℕ
  pub selected_count : ℕ
  pub is_active : Bool

pub record CustomerServicePurchaseItem : Type 0 where
  pub id : ℕ
  pub customer_service_purchase_id : ℕ
  pub customer_service_config_id : ℕ
  pub service_id : ℕ
  pub project_id : ℕ
  pub project_name : Option Text
  pub group_id : ℕ
  pub group_name : Option Text
  pub service_name : Option Text
  pub sale_price : Option ℕ
  pub support_price : ℕ

-- `selected_at` is a number of seconds.
pub record CustomerServiceSelectionSnapshot : Type 0 where
  pub id : ℕ
  pub customer_id : ℕ
  pub user_id : ℕ
  pub selected_at : ℕ
  pub payload : Text
