-- ===== src/Auth/Otp.antt =====
-- One-time passwords are used once: a mobile has at most one unused code, and a code that has let
-- its user in lets nobody in again.
use zaraamad_portal_be.Base.{
  ℕ, ◌≤◌, Bool, true, false, Option, none, some, List, [], ◌∷◌, ◌++◌, ◌≡◌, refl, sym, ap, ◌∙◌, inl,
  inr, arith, keep, count, find_row, update_row, Option-cases, Bool-cases, All, SameRows,
  SameRows-nil, All-SameRows, keep_nil, count-append, count-update_row,
}
use mathlib.Core.Path.{subst}
use zaraamad_portal_be.Text.{Text, text_eq, text_eq→eq}
use zaraamad_portal_be.Http.{raised, is_ok, http_exception, otp_invalid}
use zaraamad_portal_be.Database.{OtpCode, UserRole, Database}
use zaraamad_portal_be.Session.{begin}
use zaraamad_portal_be.Auth.{
  OtpPolicy, OtpProvider, Draw, use_all, new_otp, otp_id_of, get_latest_unused_otp, request_otp,
  verify_otp, is_unused, first,
}
use zaraamad_portal_be.Auth.Outcome.{request_otp_outcome, verify_otp_outcome}

-- At most one unused code for each mobile.
abbrev pub AtMostOne : Database → Type 0
AtMostOne d = (mobile : Text) → count (is_unused mobile) d.otp_codes ≤ 1

count-use_all_self :
    (mobile : Text) (cs : List OtpCode) → count (is_unused mobile) (use_all mobile cs) ≡ 0
count-use_all_self mobile [] = refl
count-use_all_self mobile (c ∷ cs) = ground (arith, count-use_all_self mobile cs)

count-use_all :
    (mobile other : Text) (cs : List OtpCode)
    → count (is_unused other) (use_all mobile cs) ≤ count (is_unused other) cs
count-use_all mobile other [] = omega arith
count-use_all mobile other (c ∷ cs) = ground (arith, count-use_all mobile other cs)

count_one : (p : OtpCode → Bool) (c : OtpCode) → count p (c ∷ []) ≤ 1
count_one p c = ground arith

requested-AtMostOne :
    (policy : OtpPolicy) (draw : Draw) (mobile : Text) (cs : List OtpCode)
    → ((other : Text) → count (is_unused other) cs ≤ 1)
    → (other : Text)
    → count (is_unused other) (use_all mobile cs ++ new_otp policy draw mobile ∷ []) ≤ 1
unfolding new_otp
requested-AtMostOne policy draw mobile cs h other = elim (Bool-cases (text_eq mobile other)) [
  | inl same ↦
      let e : mobile ≡ other = text_eq→eq mobile other same in
      omega (
        arith,
        count-append (is_unused other) (use_all mobile cs) (new_otp policy draw mobile ∷ []),
        subst (λ m. count (is_unused m) (use_all mobile cs) ≡ 0) e (count-use_all_self mobile cs),
        count_one (is_unused other) (new_otp policy draw mobile),
      )
  | inr differ ↦ ground (
    arith,
    count-append (is_unused other) (use_all mobile cs) (new_otp policy draw mobile ∷ []),
    count-use_all mobile other cs,
    h other,
  )
]

count-marked :
    (p : OtpCode → Bool) (k : ℕ) (cs : List OtpCode)
    → ((c : OtpCode) → p (record c { is_used = true }) ≡ false)
    → count p (update_row otp_id_of k (λ c. record c { is_used = true }) cs) ≤ count p cs
count-marked p k [] h = omega arith
count-marked p k (c ∷ cs) h = ground (arith, h c, count-marked p k cs h)

-- The primary key: each row is the one that its key finds.
abbrev pub HasKeys : Database → Type 0
HasKeys d = All (λ c. find_row otp_id_of c.id d.otp_codes ≡ some c) d.otp_codes

-- The row that the code's key finds is unused for the mobile.
abbrev row_is_unused : Text → List OtpCode → OtpCode → Bool
row_is_unused mobile rows c = elim (find_row otp_id_of c.id rows) [
  | none ↦ false
  | some x ↦ is_unused mobile x
]

row_is_unused-keep :
    (mobile : Text) (rows cs : List OtpCode)
    → All (λ c. find_row otp_id_of c.id rows ≡ some c) cs
    → All (λ c. row_is_unused mobile rows c ≡ true) (keep (is_unused mobile) cs)
row_is_unused-keep mobile rows [] h = tt
row_is_unused-keep mobile rows (c ∷ cs) h = elim (Bool-cases (is_unused mobile c)) [
  | inl unused ↦ rw unused (rw (row_is_unused, h.0) unused, row_is_unused-keep mobile rows cs h.1)
  | inr used ↦ rw used (row_is_unused-keep mobile rows cs h.1)
]

All-first :
    (p : OtpCode → Bool) (cs : List OtpCode) {otp : OtpCode}
    → All (λ c. p c ≡ true) cs
    → first cs ≡ some otp
    → p otp ≡ true
All-first p [] h e = cc
All-first p (c ∷ cs) {otp} h e = ground (arith, h.0)

none_left :
    (mobile : Text) (otp : OtpCode) (rows : List OtpCode)
    → count (is_unused mobile) rows ≤ 1
    → row_is_unused mobile rows otp ≡ true
    → count (is_unused mobile) (update_row otp_id_of otp.id (λ c. record c { is_used = true }) rows)
      ≡ 0
none_left mobile otp rows h unused = elim (Option-cases (find_row otp_id_of otp.id rows)) [
  | inl missing ↦ absurd (ground arith)
  | inr (x, found) ↦
      let was : is_unused mobile x ≡ true = rw (row_is_unused, found) at unused in
      omega (
        arith,
        count-update_row otp_id_of (is_unused mobile) otp.id (λ c. record c { is_used = true }) rows
            found was (ground arith),
        h,
      )
]

module _ (newest_first : List OtpCode → List OtpCode)
    (reorders : (cs : List OtpCode) → SameRows (newest_first cs) cs) where
  latest-none :
      (mobile : Text) (d : Database)
      → count (is_unused mobile) d.otp_codes ≡ 0
      → get_latest_unused_otp newest_first mobile d ≡ none
  unfolding get_latest_unused_otp
  latest-none mobile d h =
      rw (keep_nil (is_unused mobile) d.otp_codes h, SameRows-nil (newest_first []) (reorders []))
        refl

  latest-unused :
      (mobile : Text) (d : Database) {otp : OtpCode}
      → HasKeys d
      → get_latest_unused_otp newest_first mobile d ≡ some otp
      → row_is_unused mobile d.otp_codes otp ≡ true
  unfolding get_latest_unused_otp
  latest-unused mobile d keys e =
      All-first (row_is_unused mobile d.otp_codes)
        (newest_first (keep (is_unused mobile) d.otp_codes))
        (All-SameRows (row_is_unused mobile d.otp_codes)
          (newest_first (keep (is_unused mobile) d.otp_codes)) (keep (is_unused mobile) d.otp_codes)
          (reorders (keep (is_unused mobile) d.otp_codes))
          (row_is_unused-keep mobile d.otp_codes d.otp_codes keys))
        e

module _ (violation : Database → Option Text) where
  -- Where every mobile has at most one unused code, it has at most one after any request for a
  -- code, refused or not.
  pub request_otp-AtMostOne :
      (policy : OtpPolicy) (provider : OtpProvider) (draw : Draw) (mobile : Text) (d : Database)
      → AtMostOne d
      → AtMostOne (request_otp violation policy provider draw mobile (begin d)).1.committed
  request_otp-AtMostOne policy provider draw mobile d h =
      elim (request_otp_outcome violation policy provider draw mobile d) [
        | inl (_, same) ↦ subst AtMostOne (sym same) h
        | inr (_, _, _, _, _, _, same) ↦
            subst AtMostOne (sym same) (requested-AtMostOne policy draw mobile d.otp_codes h)
      ]

module _ (violation : Database → Option Text)
    (create_access_token : ℕ → Option Text → Option UserRole → Text)
    (newest_first : List OtpCode → List OtpCode) where
  -- Where every mobile has at most one unused code, it has at most one after any check of a code,
  -- refused or not.
  pub verify_otp-AtMostOne :
      (now : ℕ) (mobile otp_code : Text) (d : Database)
      → AtMostOne d
      → AtMostOne
          (verify_otp violation create_access_token newest_first now mobile otp_code
            (begin d)).1.committed
  verify_otp-AtMostOne now mobile otp_code d h =
      elim (verify_otp_outcome violation create_access_token newest_first now mobile otp_code d) [
        | inl (_, same) ↦ subst AtMostOne (sym same) h
        | inr (otp, _, _, _, same, _) ↦ subst AtMostOne (sym same) (λ other.
            omega (
              arith,
              h other,
              count-marked (is_unused other) otp.id d.otp_codes (λ c. ground arith),
            ))
      ]

  verify_otp-none :
      (now : ℕ) (mobile otp_code : Text) (d : Database)
      → get_latest_unused_otp newest_first mobile d ≡ none
      → (verify_otp violation create_access_token newest_first now mobile otp_code (begin d)).0
        ≡ raised (http_exception 400 otp_invalid)
  unfolding verify_otp
  verify_otp-none now mobile otp_code d e = ground (arith, e)

  -- Where the keys are keys, every mobile has at most one unused code and the database's order drops
  -- no row: once a code has let its user in, a call for the same mobile on the database that this
  -- leaves is refused as invalid, at any time and with any code.
  pub verify_otp_once :
      (now later : ℕ) (mobile otp_code other : Text) (d : Database)
      → ((cs : List OtpCode) → SameRows (newest_first cs) cs)
      → HasKeys d
      → AtMostOne d
      → is_ok
          (verify_otp violation create_access_token newest_first now mobile otp_code (begin d)).0
        ≡ true
      → (verify_otp violation create_access_token newest_first later mobile other (
          begin
            (verify_otp violation create_access_token newest_first now mobile otp_code
              (begin d)).1.committed)).0
        ≡ raised (http_exception 400 otp_invalid)
  verify_otp_once now later mobile otp_code other d reorders keys one success =
      elim (verify_otp_outcome violation create_access_token newest_first now mobile otp_code d) [
        | inl (refused, _) ↦ absurd (ground arith)
        | inr (otp, latest, _, _, same, _) ↦
            verify_otp-none later mobile other
              (verify_otp violation create_access_token newest_first now mobile otp_code
                (begin d)).1.committed
              (latest-none newest_first reorders mobile
                (verify_otp violation create_access_token newest_first now mobile otp_code
                  (begin d)).1.committed
                (ap (λ x. count (is_unused mobile) x.otp_codes) same
                  ∙ none_left mobile otp d.otp_codes (one mobile)
                      (latest-unused newest_first reorders mobile d keys latest)))
      ]
