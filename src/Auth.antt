-- ===== src/Auth.antt =====
-- app/modules/auth/service.py: one-time passwords, sign up and login. The token that jose encodes,
-- the SMS gateway, the clock, the drawn code and the salt are arguments.
pub mod Outcome
pub mod Otp
pub mod Login
mod Tests
use zaraamad_portal_be.Base.{
  ℕ, ◌+◌, Bool, true, false, not, ◌&&◌, ◌||◌, Option, none, some, List, [], ◌∷◌, ◌++◌, ◌==◌, leb,
  if◌then◌else◌, keep, length, count, update_row,
}
use zaraamad_portal_be.Text.{Text, codes, text_eq, lower, contains}
use zaraamad_portal_be.Http.{
  Detail, Exception, http_exception, Result, ok, raised, type_error, data_integrity_error,
  invalid_credentials, mobile_already_exists, otp_delivery_failed, otp_expired, otp_invalid,
  too_many_otp_requests, user_not_found_or_inactive,
}
use zaraamad_portal_be.Database.{User, OtpCode, UserRole, Database, truthy}
use zaraamad_portal_be.Session.{
  Session, Action, pure, raise, fail, reads, fail_if, or_fail, or_raise, modify, rollback, commit,
  commit_or_rollback, ◌>>=◌, ◌>>◌,
}
use zaraamad_portal_be.Password.{
  Hashing, verify_password, hash_password, is_legacy_plaintext_password,
}

-- `OTPPolicy` over the settings, in seconds.
pub record OtpPolicy : Type 0 where
  pub expires_after : ℕ
  pub request_limit_count : ℕ
  pub request_limit_window : ℕ

-- app/common/services/otp_provider.py: the two providers, and how the SMS gateway answers.
pub data SmsOutcome : Type 0 where
  sent config_error delivery_error : SmsOutcome

pub data OtpProvider : Type 0 where
  mock : Bool → OtpProvider
  sms : OtpProvider

-- The code that is handed back in the development mode, or the status of an `OTPProviderError`.
pub data Delivery : Type 0 where
  delivered : Option Text → Delivery
  provider_error : ℕ → Delivery

unfoldable pub send_login_otp : OtpProvider → SmsOutcome → Text → Delivery
send_login_otp (OtpProvider.mock dev_mode) outcome code =
    delivered (if dev_mode then some code else none)
send_login_otp OtpProvider.sms SmsOutcome.sent code = delivered none
send_login_otp OtpProvider.sms SmsOutcome.config_error code = provider_error 500
send_login_otp OtpProvider.sms SmsOutcome.delivery_error code = provider_error 503

-- What a login or a verified code gives: the token and the row of the user.
pub record AccessTokenOut : Type 0 where
  pub access_token : Text
  pub user : User

abbrev text_is : Option Text → Text → Bool
text_is none t = false
text_is (some s) t = text_eq s t

abbrev pub first : {A : Type 0} → List A → Option A
first [] = none
first (x ∷ _) = some x

-- The `where` clause of `_get_active_user_by_mobile`.
abbrev pub is_active_mobile : Text → User → Bool
is_active_mobile mobile u = text_is u.mobile mobile && truthy u.is_active

unfoldable pub get_active_user_by_mobile : Text → Database → Option User
get_active_user_by_mobile mobile d = first (keep (is_active_mobile mobile) d.users)

-- `created_at >= now - window`, over the requests of one mobile.
abbrev pub in_window : Text → ℕ → ℕ → OtpCode → Bool
in_window mobile now window c = text_eq c.mobile mobile && leb now (c.created_at + window)

pub enforce_rate_limit : OtpPolicy → ℕ → Text → Action (Unit {0})
unfolding ◌>>=◌
enforce_rate_limit policy now mobile = do
  request_count ← reads (λ d. count (in_window mobile now policy.request_limit_window) d.otp_codes)
  fail_if (leb policy.request_limit_count request_count) 429 too_many_otp_requests

abbrev pub is_unused : Text → OtpCode → Bool
is_unused mobile c = text_eq c.mobile mobile && not c.is_used

-- `update(OTPCode).where(…).values(is_used=True)`
abbrev pub use_all : Text → List OtpCode → List OtpCode
use_all mobile [] = []
use_all mobile (c ∷ cs) =
    (if is_unused mobile c then record c { is_used = true } else c) ∷ use_all mobile cs

pub invalidate_previous_otps : Text → Action (Unit {0})
invalidate_previous_otps mobile = modify (λ d. record d { otp_codes = use_all mobile d.otp_codes })

-- `_is_expired`
pub is_expired : ℕ → ℕ → Bool
is_expired now expires_at = leb expires_at now

abbrev pub otp_id_of : OtpCode → ℕ
otp_id_of c = c.id

abbrev pub user_id_of : User → ℕ
user_id_of u = u.id

-- The clock of the application and of the database, and what is drawn for a request.
pub record Draw : Type 0 where
  pub now : ℕ
  pub database_now : ℕ
  pub new_id : ℕ
  pub otp_code : Text
  pub outcome : SmsOutcome

unfoldable pub new_otp : OtpPolicy → Draw → Text → OtpCode
new_otp policy draw mobile = record {
  id = draw.new_id;
  mobile = mobile;
  code = draw.otp_code;
  expires_at = draw.now + policy.expires_after;
  is_used = false;
  created_at = draw.database_now;
}

-- `_raise_integrity_exception`
pub integrity_exception : Text → Exception
integrity_exception error_text =
    if contains (codes "mobile") (lower error_text)
    then http_exception 409 mobile_already_exists
    else http_exception 409 data_integrity_error

pub record PublicSignUpCreate : Type 0 where
  pub full_name : Text
  pub mobile : Text
  pub organization_name : Text
  pub organization_type : Text

unfoldable pub new_public_user : ℕ → PublicSignUpCreate → User
new_public_user new_id dto = record {
  id = new_id;
  full_name = some dto.full_name;
  mobile = some dto.mobile;
  password = none;
  organization_name = some dto.organization_name;
  organization_type = some dto.organization_type;
  role = some UserRole.public;
  is_active = some true;
  customer_id = none;
}

-- `newest_first` is the database's `ORDER BY created_at DESC`.
unfoldable pub get_latest_unused_otp :
    (List OtpCode → List OtpCode) → Text → Database → Option OtpCode
get_latest_unused_otp newest_first mobile d =
    first (newest_first (keep (is_unused mobile) d.otp_codes))

-- The columns `role` and `mobile` are NOT NULL, so a row that was read has both.
pub build_access_token_response :
    (ℕ → Option Text → Option UserRole → Text) → User → Action AccessTokenOut
build_access_token_response create_access_token u =
    pure (record { access_token = create_access_token u.id u.mobile u.role; user = u })

module _ (violation : Database → Option Text) where
  -- The `try` around the delivery and the commit.
  pub finish_request : Delivery → Action (Option Text)
  unfolding commit ◌>>=◌
  finish_request (delivered dev_otp) = do commit violation; pure dev_otp
  finish_request (provider_error status) = do rollback; fail status otp_delivery_failed

  unfoldable pub request_otp : OtpPolicy → OtpProvider → Draw → Text → Action (Option Text)
  unfolding enforce_rate_limit invalidate_previous_otps finish_request ◌>>=◌
  request_otp policy provider draw mobile = do
    found ← reads (get_active_user_by_mobile mobile)
    user ← or_fail found 404 user_not_found_or_inactive
    enforce_rate_limit policy draw.now mobile
    invalidate_previous_otps mobile
    modify (λ d. record d { otp_codes = d.otp_codes ++ new_otp policy draw mobile ∷ [] })
    finish_request (send_login_otp provider draw.outcome draw.otp_code)

module _ (violation : Database → Option Text)
    (create_access_token : ℕ → Option Text → Option UserRole → Text) where
  unfoldable pub sign_up_public : ℕ → PublicSignUpCreate → Action AccessTokenOut
  unfolding new_public_user commit_or_rollback build_access_token_response ◌>>=◌
  sign_up_public new_id dto = do
    modify (λ d. record d { users = d.users ++ new_public_user new_id dto ∷ [] })
    commit_or_rollback violation integrity_exception
    build_access_token_response create_access_token (new_public_user new_id dto)

  module _ (newest_first : List OtpCode → List OtpCode) where
    -- The end of `verify_otp`, with the user that was found: both branches commit the used code.
    pub finish_verify : Option User → Action AccessTokenOut
    unfolding commit build_access_token_response ◌>>=◌
    finish_verify none = do commit violation; fail 401 user_not_found_or_inactive
    finish_verify (some u) = do commit violation; build_access_token_response create_access_token u

    unfoldable pub verify_otp : ℕ → Text → Text → Action AccessTokenOut
    unfolding is_expired finish_verify ◌>>=◌
    verify_otp now mobile otp_code = do
      latest ← reads (get_latest_unused_otp newest_first mobile)
      otp ← or_fail latest 400 otp_invalid
      fail_if (not (text_eq otp.code otp_code)) 400 otp_invalid
      fail_if (is_expired now otp.expires_at) 400 otp_expired
      modify (λ d. record d {
        otp_codes = update_row otp_id_of otp.id (λ c. record c { is_used = true }) d.otp_codes;
      })
      found ← reads (get_active_user_by_mobile mobile)
      finish_verify found

  module _ (hashing : Hashing) where
    -- `_upgrade_legacy_password`
    pub upgrade_legacy_password : Text → ℕ → Text → Action (Unit {0})
    unfolding commit ◌>>=◌
    upgrade_legacy_password salt user_id password = do
      hashed ← or_raise (hash_password hashing salt password)
      modify (λ d. record d {
        users = update_row user_id_of user_id (λ u. record u { password = some hashed }) d.users;
      })
      commit violation

    -- `if is_legacy_plaintext_password(…): _upgrade_legacy_password(…)`
    pub upgrade_if_legacy : Bool → Text → ℕ → Text → Action (Unit {0})
    unfolding upgrade_legacy_password
    upgrade_if_legacy true salt user_id password = upgrade_legacy_password salt user_id password
    upgrade_if_legacy false salt user_id password = pure tt

    unfoldable pub login : Text → Text → Text → Action AccessTokenOut
    unfolding upgrade_if_legacy build_access_token_response ◌>>=◌
    login salt mobile password = do
      found ← reads (get_active_user_by_mobile mobile)
      u ← or_fail found 401 invalid_credentials
      verified ← or_raise (verify_password hashing password u.password)
      fail_if (not verified) 401 invalid_credentials
      upgrade_if_legacy (is_legacy_plaintext_password u.password) salt u.id password
      build_access_token_response create_access_token u
