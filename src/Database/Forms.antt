-- ===== src/Database/Forms.antt =====
-- The rows of app/modules/forms/schemas.py and the enumerations of app/modules/forms/constants.py.
use zaraamad_portal_be.Base.{ℕ, Bool, Option}
use zaraamad_portal_be.Base.Int.{ℤ}
use zaraamad_portal_be.Text.{Text}
use zaraamad_portal_be.Json.{Json}

pub data FormScopeType : Type 0 where
  global municipality : FormScopeType

pub data FormFieldType : Type 0 where
  text number checkbox date work_holiday select certificate_number radio text_area : FormFieldType
  compound floor_area : FormFieldType

pub data FormBindingType : Type 0 where
  fixed dynamic : FormBindingType

pub record FormSchema : Type 0 where
  pub id : ℕ
  pub key : Option Text
  pub title : Option Text
  pub version : Option ℕ
  pub description : Option Text
  pub is_active : Option Bool
  pub scope_type : Option FormScopeType
  pub scope_value : Option Text

pub record FormField : Type 0 where
  pub id : ℕ
  pub form_id : ℕ
  pub parent_field_id : Option ℕ
  pub key : Option Text
  pub label : Option Text
  pub type : Option FormFieldType
  pub required : Option Bool
  pub order_index : Option ℤ
  pub placeholder : Option Text
  pub default_value : Json
  pub validation : Json
  pub source : Json
  pub options : Json
  pub binding : Option FormBindingType
