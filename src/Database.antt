-- ===== src/Database.antt =====
-- The rows of the tables that app/modules/*/schemas.py declare, and the database as the lists of
-- them. An attribute that a request may set to null is optional here, also where the column is
-- NOT NULL: the object holds `None` until the commit refuses it.
mod Customers
mod Catalog
mod Forms
pub use Customers.*
pub use Catalog.*
pub use Forms.*
use zaraamad_portal_be.Base.{ℕ, Bool, true, false, not, Option, none, some, List, []}
use zaraamad_portal_be.Text.{Text}

pub data UserRole : Type 0 where
  admin customer public : UserRole

pub data SortOrder : Type 0 where
  asc desc : SortOrder

pub data TicketStatus : Type 0 where
  «open» in_progress resolved closed rejected : TicketStatus

pub data TicketPriority : Type 0 where
  low medium high urgent : TicketPriority

pub record User : Type 0 where
  pub id : ℕ
  pub full_name : Option Text
  pub mobile : Option Text
  pub password : Option Text
  pub organization_name : Option Text
  pub organization_type : Option Text
  pub role : Option UserRole
  pub is_active : Option Bool
  pub customer_id : Option ℕ

-- `purpose` has one value, `OtpPurpose.LOGIN`, and is left out. Times are numbers of seconds.
pub record OtpCode : Type 0 where
  pub id : ℕ
  pub mobile : Text
  pub code : Text
  pub expires_at : ℕ
  pub is_used : Bool
  pub created_at : ℕ

pub record Ticket : Type 0 where
  pub id : ℕ
  pub title : Option Text
  pub description : Option Text
  pub status : TicketStatus
  pub priority : Option TicketPriority
  pub created_by_user_id : ℕ
  pub assigned_to_user_id : Option ℕ
  pub status_changed_by_user_id : Option ℕ
  pub resolved_at : Option ℕ
  pub is_active : Bool

pub record Feedback : Type 0 where
  pub id : ℕ
  pub user_id : ℕ
  pub message : Option Text
  pub selected_options : List Text

pub record Database : Type 0 where
  pub customers : List Customer
  pub users : List User
  pub otp_codes : List OtpCode
  pub tickets : List Ticket
  pub feedback : List Feedback
  pub bridge_configs : List CustomerBridgeConfig
  pub income_summaries : List CustomerIncomeSummary
  pub income_buckets : List CustomerIncomeBucket
  pub income_monthly_reports : List CustomerIncomeMonthlyReport
  pub service_projects : List ServiceProject
  pub service_groups : List ServiceGroup
  pub services : List Service
  pub service_configs : List CustomerServiceConfig
  pub purchases : List CustomerServicePurchase
  pub purchase_items : List CustomerServicePurchaseItem
  pub snapshots : List CustomerServiceSelectionSnapshot
  pub form_schemas : List FormSchema
  pub form_fields : List FormField

abbrev pub empty_database : Database
empty_database = record {
  customers = [];
  users = [];
  otp_codes = [];
  tickets = [];
  feedback = [];
  bridge_configs = [];
  income_summaries = [];
  income_buckets = [];
  income_monthly_reports = [];
  service_projects = [];
  service_groups = [];
  services = [];
  service_configs = [];
  purchases = [];
  purchase_items = [];
  snapshots = [];
  form_schemas = [];
  form_fields = [];
}

-- The truth of an optional flag, as `not user.is_active` and `is_(True)` read it.
abbrev pub truthy : Option Bool → Bool
truthy none = false
truthy (some b) = b

-- `column.is_(wanted)`, by default `is_(True)`: how the lists filter by activity.
abbrev pub flag_is : Option Bool → Option Bool → Bool
flag_is none flag = truthy flag
flag_is (some wanted) none = false
flag_is (some true) (some b) = b
flag_is (some false) (some b) = not b

-- `a == b` on roles.
abbrev pub role_eq : UserRole → UserRole → Bool
role_eq UserRole.admin UserRole.admin = true
role_eq UserRole.customer UserRole.customer = true
role_eq UserRole.public UserRole.public = true
role_eq _ _ = false

abbrev pub is_role : Option UserRole → UserRole → Bool
is_role none r = false
is_role (some q) r = role_eq q r
