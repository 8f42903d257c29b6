-- ===== src/Auth/Login.antt =====
-- `AuthService.login`: who gets in, what a refusal tells, and when the stored password is replaced.
use zaraamad_portal_be.Base.{
  ℕ, true, false, Option, none, some, ◌≡◌, ◌≢◌, refl, ap, subst, ◌∙◌, ◌⊎◌, inl, inr, arith,
  update_row, Option-cases, Bool-cases,
}
use zaraamad_portal_be.Text.{Text, text_eq, text_eq→eq, is_empty}
use zaraamad_portal_be.Http.{Result, ok, raised, is_ok, http_exception, invalid_credentials}
use zaraamad_portal_be.Database.{User, UserRole, Database}
use zaraamad_portal_be.Session.{begin}
use zaraamad_portal_be.Password.{
  Hashing, digest_hex, iterations_text, is_ascii, is_hashed_password, compare_digest,
  verify_password, hash_password, is_legacy_plaintext_password,
}
use zaraamad_portal_be.Password.Verify.{HasNoDollar, verify_password-hash_password}
use zaraamad_portal_be.Auth.{AccessTokenOut, get_active_user_by_mobile, user_id_of, login}

-- The database with a new password of one user.
abbrev pub with_password : Database → ℕ → Text → Database
with_password d user_id hashed = record d {
  users = update_row user_id_of user_id (λ u. record u { password = some hashed }) d.users;
}

text_eq-≢ : (s t : Text) → s ≢ t → text_eq s t ≡ false
text_eq-≢ s t other = elim (Bool-cases (text_eq s t)) [
  | inl same ↦ absurd (other (text_eq→eq s t same))
  | inr differs ↦ differs
]

module _ (violation : Database → Option Text)
    (create_access_token : ℕ → Option Text → Option UserRole → Text) (hashing : Hashing) where
  -- What a login without an exception did: the user was found active, the password was verified,
  -- and the password was replaced by its hash exactly where it was stored in plain text.
  abbrev pub LoggedIn : Text → Text → Text → Database → Result AccessTokenOut → Database → Type 0
  LoggedIn salt mobile password d r after =
      (u : User) × (get_active_user_by_mobile mobile d ≡ some u)
      × (verify_password hashing password u.password ≡ some true)
      × (r ≡ ok (record { access_token = create_access_token u.id u.mobile u.role; user = u }))
      × (((is_legacy_plaintext_password u.password ≡ false) × (after ≡ d))
          ⊎ ((hashed : Text) × (is_legacy_plaintext_password u.password ≡ true)
              × (hash_password hashing salt password ≡ some hashed)
              × (after ≡ with_password d u.id hashed)))

  -- A login either raises and leaves the database alone, or it logged the user in: the active user of
  -- the mobile, whose password was verified, and who has a hash of it stored where the stored one was
  -- plain text, and is left alone otherwise.
  pub login_outcome :
      (salt mobile password : Text) (d : Database)
      → let (r, s) = login violation create_access_token hashing salt mobile password (begin d) in
        ((is_ok r ≡ false) × (s.committed ≡ d)) ⊎ LoggedIn salt mobile password d r s.committed
  unfolding login
  login_outcome salt mobile password d = elim (Option-cases (get_active_user_by_mobile mobile d)) [
    | inl missing ↦ inl (ground arith)
    | inr (u, found) ↦ elim (Option-cases (verify_password hashing password u.password)) [
      | inl raises ↦ inl (ground arith)
      | inr (verified, e) ↦ elim (Bool-cases (is_legacy_plaintext_password u.password)) [
        | inl legacy ↦ ground arith
        | inr modern ↦ ground arith
      ]
    ]
  ]

module _ (hashing : Hashing) where
  -- The password is not the one that is stored, told from the texts: none is stored; a plain text is
  -- stored that is another one; or `hash_password` stored another one, of which the digest is
  -- another one too.
  pub data IsWrong (password : Text) : Option Text → Type 0 where
    unset : IsWrong password none
    plain :
        {stored : Text}
        → is_hashed_password (some stored) ≡ false
        → is_ascii password ≡ true
        → is_ascii stored ≡ true
        → password ≢ stored
        → IsWrong password (some stored)
    hashed :
        {stored salt original digest actual : Text}
        → HasNoDollar salt
        → hashing.derive_digest_hex original salt 200000 ≡ digest_hex digest
        → hashing.derive_digest_hex password salt 200000 ≡ digest_hex actual
        → is_ascii digest ≡ true
        → is_ascii actual ≡ true
        → actual ≢ digest
        → hash_password hashing salt original ≡ some stored
        → IsWrong password (some stored)

  module _ (int_law : hashing.parse_int iterations_text ≡ some 200000) where
    IsWrong-refused :
        (password : Text) (stored : Option Text)
        → IsWrong password stored
        → verify_password hashing password stored ≡ some false
    unfolding verify_password compare_digest
    IsWrong-refused password none IsWrong.unset = refl
    IsWrong-refused password (some stored) (IsWrong.plain unhashed ascii ascii' other) =
        elim (Bool-cases (is_empty stored)) [
          | inl empty ↦ rw (verify_password, empty) refl
          | inr filled ↦
              rw
                (
                  verify_password,
                  filled,
                  unhashed,
                  compare_digest,
                  ascii,
                  ascii',
                  text_eq-≢ password stored other,
                )
                refl
        ]
    IsWrong-refused password (some stored)
          (IsWrong.hashed {salt = salt} {original = original} {digest = digest} {actual = actual}
            no_dollar d a ascii ascii' other is) =
        let (form, written, modern, verified) =
          verify_password-hash_password hashing int_law salt original password digest actual
            no_dollar d a ascii ascii' in
        let same : form ≡ stored = cc in
        subst (λ t. verify_password hashing password (some t) ≡ some false) same
          (verified ∙ ap some (text_eq-≢ actual digest other))

module _ (violation : Database → Option Text)
    (create_access_token : ℕ → Option Text → Option UserRole → Text) (hashing : Hashing)
    (int_law : hashing.parse_int iterations_text ≡ some 200000) where
  -- Where the library reads 200000 back, a mobile that no active user has and a wrong password of
  -- the active user who has it are refused by the same answer, and neither changes the session. A
  -- password is wrong if none is stored; if another plain text is stored and both are ASCII; or if
  -- the hash of another one is stored, with another digest.
  pub login_refuses_wrong :
      (salt mobile password : Text) (d : Database)
      → (get_active_user_by_mobile mobile d ≡ none)
        ⊎ ((u : User) × (get_active_user_by_mobile mobile d ≡ some u)
            × IsWrong hashing password u.password)
      → login violation create_access_token hashing salt mobile password (begin d)
        ≡ (raised (http_exception 401 invalid_credentials), begin d)
  unfolding login
  login_refuses_wrong salt mobile password d (inl missing) = rw (login, missing) refl
  login_refuses_wrong salt mobile password d (inr (u, found, wrong)) =
      rw (login, found, IsWrong-refused hashing int_law password u.password wrong) refl
