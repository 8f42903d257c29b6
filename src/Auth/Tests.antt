-- ===== src/Auth/Tests.antt =====
-- Runs of the authentication service on a small database, and its theorems there.
use zaraamad_portal_be.Base.{
  ℕ, true, false, Option, none, some, List, [], ◌∷◌, ◌≡◌, refl, ◌⊎◌, inr, ◌<◌, arith, count,
  SameRows,
}
use zaraamad_portal_be.Text.{Text, codes, text_eq}
use zaraamad_portal_be.Http.{ok, raised, is_ok, http_exception, invalid_credentials, otp_invalid}
use zaraamad_portal_be.Database.{User, OtpCode, UserRole, Database, empty_database}
use zaraamad_portal_be.Session.{begin}
use zaraamad_portal_be.Password.{digest_hex, Hashing, is_hashed_password}
use zaraamad_portal_be.Auth.{
  OtpPolicy, OtpProvider, Draw, SmsOutcome, delivered, send_login_otp, get_active_user_by_mobile,
  get_latest_unused_otp, in_window, request_otp, verify_otp, login,
}
use zaraamad_portal_be.Auth.Outcome.{requested, marked, request_otp_outcome, verify_otp_outcome}
use zaraamad_portal_be.Auth.Otp.{AtMostOne, request_otp-AtMostOne, verify_otp_once}
use zaraamad_portal_be.Auth.Login.{LoggedIn, IsWrong, login_outcome, login_refuses_wrong}

abbrev accepts : Database → Option Text
accepts d = none

abbrev no_token : ℕ → Option Text → Option UserRole → Text
no_token id mobile role = codes "token"

abbrev same_order : List OtpCode → List OtpCode
same_order cs = cs

abbrev echo : Hashing
echo = record {
  derive_digest_hex = λ password salt n. digest_hex password;
  parse_int = λ s. some 200000;
}

abbrev ali : Text
ali = codes "09121234567"

abbrev ali_row : User
ali_row = record {
  id = 7;
  full_name = some (codes "Ali");
  mobile = some ali;
  password = some (codes "secret");
  organization_name = none;
  organization_type = none;
  role = some UserRole.public;
  is_active = some true;
  customer_id = none;
}

abbrev sent_code : OtpCode
sent_code = record {
  id = 1;
  mobile = ali;
  code = codes "123456";
  expires_at = 220;
  is_used = false;
  created_at = 100;
}

abbrev one_code : Database
one_code = record empty_database { users = ali_row ∷ []; otp_codes = sent_code ∷ [] }

abbrev policy : OtpPolicy
policy = record { expires_after = 120; request_limit_count = 3; request_limit_window = 600 }

abbrev draw : Draw
draw = record {
  now = 150;
  database_now = 150;
  new_id = 2;
  otp_code = codes "654321";
  outcome = SmsOutcome.sent;
}

one_code-AtMostOne : AtMostOne one_code
one_code-AtMostOne mobile = ground arith

reordered : (cs : List OtpCode) → SameRows (same_order cs) cs
reordered cs p = refl

request_otp_outcome_example :
    ((is_ok (request_otp accepts policy OtpProvider.sms draw ali (begin one_code)).0 ≡ false)
      × ((request_otp accepts policy OtpProvider.sms draw ali (begin one_code)).1.committed
          ≡ one_code))
    ⊎ ((u : User) × (dev_otp : Option Text) × (get_active_user_by_mobile ali one_code ≡ some u)
        × (count (in_window ali 150 600) one_code.otp_codes < 3)
        × (send_login_otp OtpProvider.sms SmsOutcome.sent (codes "654321") ≡ delivered dev_otp)
        × ((request_otp accepts policy OtpProvider.sms draw ali (begin one_code)).0 ≡ ok dev_otp)
        × ((request_otp accepts policy OtpProvider.sms draw ali (begin one_code)).1.committed
            ≡ requested policy draw ali one_code))
request_otp_outcome_example = request_otp_outcome accepts policy OtpProvider.sms draw ali one_code

verify_otp_outcome_example :
    ((is_ok (verify_otp accepts no_token same_order 150 ali (codes "123456") (begin one_code)).0
        ≡ false)
      × ((verify_otp accepts no_token same_order 150 ali
            (codes "123456")
            (begin one_code)).1.committed
          ≡ one_code))
    ⊎ ((otp : OtpCode) × (get_latest_unused_otp same_order ali one_code ≡ some otp)
        × (text_eq otp.code (codes "123456") ≡ true)
        × (150 < otp.expires_at)
        × ((verify_otp accepts no_token same_order 150 ali
              (codes "123456")
              (begin one_code)).1.committed
            ≡ marked one_code otp)
        × ((is_ok
                (verify_otp accepts no_token same_order 150 ali (codes "123456") (begin one_code)).0
              ≡ true)
            ⊎ (get_active_user_by_mobile ali one_code ≡ none)))
verify_otp_outcome_example =
    verify_otp_outcome accepts no_token same_order 150 ali (codes "123456") one_code

request_otp-AtMostOne_example :
    AtMostOne (request_otp accepts policy OtpProvider.sms draw ali (begin one_code)).1.committed
request_otp-AtMostOne_example =
    request_otp-AtMostOne accepts policy OtpProvider.sms draw ali one_code one_code-AtMostOne

code_lets_in :
    is_ok (verify_otp accepts no_token same_order 150 ali (codes "123456") (begin one_code)).0
    ≡ true
unfolding verify_otp get_latest_unused_otp get_active_user_by_mobile
code_lets_in = refl

verify_otp_once_example :
    (verify_otp accepts no_token same_order 160 ali (codes "123456") (
      begin
        (verify_otp accepts no_token same_order 150 ali
          (codes "123456")
          (begin one_code)).1.committed)).0
    ≡ raised (http_exception 400 otp_invalid)
verify_otp_once_example =
    verify_otp_once accepts no_token same_order 150 160 ali (codes "123456") (codes "123456")
      one_code reordered (refl, tt) one_code-AtMostOne code_lets_in

login_outcome_example :
    ((is_ok (login accepts no_token echo (codes "5a") ali (codes "secret") (begin one_code)).0
        ≡ false)
      × ((login accepts no_token echo
            (codes "5a")
            ali
            (codes "secret")
            (begin one_code)).1.committed
          ≡ one_code))
    ⊎ LoggedIn accepts no_token echo
        (codes "5a")
        ali
        (codes "secret")
        one_code
        (login accepts no_token echo (codes "5a") ali (codes "secret") (begin one_code)).0
        (login accepts no_token echo (codes "5a") ali (codes "secret") (begin one_code)).1.committed
login_outcome_example =
    login_outcome accepts no_token echo (codes "5a") ali (codes "secret") one_code

found : get_active_user_by_mobile ali one_code ≡ some ali_row
unfolding get_active_user_by_mobile
found = refl

refused_without_hash : is_hashed_password (some (codes "secret")) ≡ false
unfolding is_hashed_password
refused_without_hash = refl

login_refuses_wrong_example :
    login accepts no_token echo (codes "5a") ali (codes "guess") (begin one_code)
    ≡ (raised (http_exception 401 invalid_credentials), begin one_code)
login_refuses_wrong_example =
    login_refuses_wrong accepts no_token echo refl (codes "5a") ali (codes "guess") one_code
      (inr (ali_row, found, IsWrong.plain refused_without_hash refl refl (λ e. ground arith)))
