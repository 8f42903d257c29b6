-- ===== src/Auth/Outcome.antt =====
-- What each call of the authentication service does to the database, branch by branch.
use zaraamad_portal_be.Base.{
  ℕ, ◌<◌, true, false, Option, none, some, List, [], ◌∷◌, ◌++◌, ◌≡◌, refl, ◌⊎◌, inl, inr, arith,
  count, update_row, Option-cases,
}
use zaraamad_portal_be.Text.{Text, text_eq}
use zaraamad_portal_be.Http.{ok, is_ok}
use zaraamad_portal_be.Database.{User, OtpCode, UserRole, Database}
use zaraamad_portal_be.Session.{begin}
use zaraamad_portal_be.Auth.{
  OtpPolicy, OtpProvider, Draw, Delivery, delivered, provider_error, send_login_otp,
  get_active_user_by_mobile, in_window, use_all, new_otp, otp_id_of, get_latest_unused_otp,
  request_otp, verify_otp,
}

-- The database with the code used.
abbrev pub marked : Database → OtpCode → Database
marked d otp = record d {
  otp_codes = update_row otp_id_of otp.id (λ c. record c { is_used = true }) d.otp_codes;
}

-- The database with a new code for the mobile, and every older one used.
abbrev pub requested : OtpPolicy → Draw → Text → Database → Database
requested policy draw mobile d = record d {
  otp_codes = use_all mobile d.otp_codes ++ new_otp policy draw mobile ∷ [];
}

user-marked :
    (mobile : Text) (d : Database) (otp : OtpCode)
    → get_active_user_by_mobile mobile (marked d otp) ≡ get_active_user_by_mobile mobile d
unfolding get_active_user_by_mobile
user-marked mobile d otp = refl

Delivery-cases :
    (x : Delivery)
    → ((dev_otp : Option Text) × (x ≡ delivered dev_otp))
      ⊎ ((status : ℕ) × (x ≡ provider_error status))
Delivery-cases (delivered dev_otp) = inl (dev_otp, refl)
Delivery-cases (provider_error status) = inr (status, refl)

module _ (violation : Database → Option Text) where
  -- A request for a code either raises and leaves the database alone, or the mobile belongs to an
  -- active user who is below the limit, and the database gains one new code for it and has every
  -- older one used.
  pub request_otp_outcome :
      (policy : OtpPolicy) (provider : OtpProvider) (draw : Draw) (mobile : Text) (d : Database)
      → let (r, s) = request_otp violation policy provider draw mobile (begin d) in
        ((is_ok r ≡ false) × (s.committed ≡ d))
        ⊎ ((u : User) × (dev_otp : Option Text) × (get_active_user_by_mobile mobile d ≡ some u)
            × (count (in_window mobile draw.now policy.request_limit_window) d.otp_codes
                < policy.request_limit_count)
            × (send_login_otp provider draw.outcome draw.otp_code ≡ delivered dev_otp)
            × (r ≡ ok dev_otp)
            × (s.committed ≡ requested policy draw mobile d))
  unfolding request_otp
  request_otp_outcome policy provider draw mobile d =
      elim (Option-cases (get_active_user_by_mobile mobile d)) [
        | inl missing ↦ inl (ground arith)
        | inr (u, e) ↦ elim (Delivery-cases (send_login_otp provider draw.outcome draw.otp_code)) [
          | inl (dev_otp, sent) ↦ elim (Option-cases (violation (requested policy draw mobile d))) [
            | inl kept ↦ ground arith
            | inr (error, refused) ↦ ground arith
          ]
          | inr (status, failed) ↦ ground arith
        ]
      ]

  module _ (create_access_token : ℕ → Option Text → Option UserRole → Text)
      (newest_first : List OtpCode → List OtpCode) where
    -- A check of a code either raises and leaves the database alone, or the newest unused code of the
    -- mobile is the given one and has not expired, the database has it used, and the call returns
    -- unless the mobile has no active user.
    pub verify_otp_outcome :
        (now : ℕ) (mobile otp_code : Text) (d : Database)
        → let (r, s) =
            verify_otp violation create_access_token newest_first now mobile otp_code (begin d) in
          ((is_ok r ≡ false) × (s.committed ≡ d))
          ⊎ ((otp : OtpCode) × (get_latest_unused_otp newest_first mobile d ≡ some otp)
              × (text_eq otp.code otp_code ≡ true)
              × (now < otp.expires_at)
              × (s.committed ≡ marked d otp)
              × ((is_ok r ≡ true) ⊎ (get_active_user_by_mobile mobile d ≡ none)))
    unfolding verify_otp
    verify_otp_outcome now mobile otp_code d =
        elim (Option-cases (get_latest_unused_otp newest_first mobile d)) [
          | inl missing ↦ inl (ground arith)
          | inr (otp, e) ↦ elim (Option-cases (get_active_user_by_mobile mobile d)) [
            | inl gone ↦ ground (arith, user-marked mobile d otp)
            | inr (u, found) ↦ ground (arith, user-marked mobile d otp)
          ]
        ]
