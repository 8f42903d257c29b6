-- ===== src/Password/Verify.antt =====
-- A hashed password verifies exactly the passwords with the same digest.
use zaraamad_portal_be.Base.{true, false, some, [], ◌∷◌, ◌++◌, ◌==◌, ◌≡◌, refl, All}
use zaraamad_portal_be.Text.{Text, text_eq}
use zaraamad_portal_be.Password.{
  Hashing, digest_hex, algorithm, iterations_text, split_dollar, split_stored, is_ascii,
  is_hashed_password, is_legacy_plaintext_password, compare_digest, derived, verify_hashed,
  verify_password, hash_password,
}

-- No `$` in the text, as in hexadecimal digits.
abbrev pub HasNoDollar : Text → Type 0
HasNoDollar s = All (λ c. (c == b'$') ≡ false) s

split_dollar-append : (s t : Text) → HasNoDollar s → split_dollar (s ++ b'$' ∷ t) ≡ some (s, t)
unfolding split_dollar
split_dollar-append [] t h = refl
split_dollar-append (c ∷ s) t h = rw (h.0, split_dollar-append s t h.1)

split_stored_lem :
    (salt digest : Text)
    → HasNoDollar salt
    → split_stored (algorithm ++ b'$' ∷ (iterations_text ++ b'$' ∷ (salt ++ b'$' ∷ digest)))
      ≡ some (iterations_text, salt, digest)
unfolding split_stored
split_stored_lem salt digest h = rw (split_dollar-append salt digest h, split_stored)

module _ (h : Hashing) (int_law : h.parse_int iterations_text ≡ some 200000) where
  stored_text : Text → Text → Text
  stored_text salt digest = algorithm ++ b'$' ∷ (iterations_text ++ b'$' ∷ (salt ++ b'$' ∷ digest))

  verify_stored :
      (salt attempt digest actual : Text)
      → HasNoDollar salt
      → h.derive_digest_hex attempt salt 200000 ≡ digest_hex actual
      → is_ascii digest ≡ true
      → is_ascii actual ≡ true
      → verify_hashed h attempt (stored_text salt digest) ≡ some (text_eq actual digest)
  unfolding verify_hashed derived compare_digest stored_text
  verify_stored salt attempt digest actual plain a ascii ascii' = rw (
    verify_hashed,
    split_stored_lem salt digest plain,
    derived,
    int_law,
    a,
    compare_digest,
    ascii',
    ascii,
  )

  -- What `hash_password` stores is recognised as hashed, and a login attempt is decided by
  -- comparing its digest under the stored salt.
  pub verify_password-hash_password :
      (salt password attempt digest actual : Text)
      → HasNoDollar salt
      → h.derive_digest_hex password salt 200000 ≡ digest_hex digest
      → h.derive_digest_hex attempt salt 200000 ≡ digest_hex actual
      → is_ascii digest ≡ true
      → is_ascii actual ≡ true
      → (stored : Text) × (hash_password h salt password ≡ some stored)
        × (is_legacy_plaintext_password (some stored) ≡ false)
        × (verify_password h attempt (some stored) ≡ some (text_eq actual digest))
  unfolding hash_password is_legacy_plaintext_password is_hashed_password verify_password
      stored_text
  verify_password-hash_password salt password attempt digest actual plain d a ascii ascii' = (
    stored_text salt digest,
    rw (hash_password, d),
    refl,
    verify_stored salt attempt digest actual plain a ascii ascii',
  )
