-- ===== src/Http.antt =====
-- What a service call ends with: a value, or a raised exception. `Detail` names the texts of
-- app/common/messages.py that the modelled services raise.
use zaraamad_portal_be.Base.{ℕ, Bool, true, false}
use zaraamad_portal_be.Text.{Text}

pub data Detail : Type 0 where
  admin_access_required customer_id_invalid_or_inactive customer_id_required : Detail
  customer_not_found data_integrity_error form_field_not_found form_field_parent_invalid : Detail
  form_not_found invalid_auth_token invalid_credentials invalid_iranian_mobile : Detail
  invalid_token_type local_user_context_required missing_auth_token mobile_already_exists : Detail
  organization_name_required organization_type_required otp_delivery_failed otp_expired : Detail
  otp_invalid ticket_access_denied ticket_assignee_invalid ticket_invalid_status_transition : Detail
  ticket_not_found token_subject_missing too_many_otp_requests user_not_found : Detail
  user_not_found_or_inactive user_id_invalid : Detail
  service_project_not_found service_group_not_found service_not_found service_id_invalid : Detail
  project_id_cannot_be_null project_id_invalid group_id_cannot_be_null group_id_invalid : Detail
  support_price_cannot_be_null duplicate_service_id_in_payload : Detail
  duplicate_customer_service_configuration inactive_service_cannot_be_assigned : Detail
  customer_service_config_not_found customer_service_config_in_use : Detail
  customer_service_purchase_not_found customer_service_selection_snapshot_not_found : Detail
  customer_service_config_selection_invalid customer_service_config_not_purchasable : Detail
  duplicate_customer_service_purchase_selection : Detail
  duplicate_customer_income_customer duplicate_customer_income_bucket_code : Detail
  duplicate_customer_income_report_month customer_income_bucket_total_mismatch : Detail
  customer_bridge_not_configured customer_bridge_subscription_not_cached : Detail
  -- The two messages of `CUSTOMER_ACCESS_DENIED`: the caller's id, the value of the role, or
  -- "unknown", and the id of the customer.
  customer_access_denied : Text → Text → ℕ → Detail

pub data Exception : Type 0 where
  -- `HTTPException(status_code, detail)`
  http_exception : ℕ → Detail → Exception
  -- sqlalchemy's `IntegrityError`, with the text of its `orig`, where no handler catches it
  integrity_error : Text → Exception
  -- a `TypeError`, `ValueError` or `OverflowError` of the Python library that no handler catches
  type_error : Exception
  -- not raised: the call does not return, because its loop has no end
  no_return : Exception

pub data Result (A : Type 0) : Type 0 where
  ok : A → Result A
  raised : Exception → Result A

-- The call returned.
abbrev pub is_ok : {A : Type 0} → Result A → Bool
is_ok (ok _) = true
is_ok (raised _) = false
