-- ===== src/Password/Tests.antt =====
-- Runs of the password service with a key derivation that repeats the password, and its theorem
-- there.
use zaraamad_portal_be.Base.{false, none, some, ◌≡◌, refl}
use zaraamad_portal_be.Text.{Text, codes, text_eq}
use zaraamad_portal_be.Password.{
  digest_hex, overflow_error, Hashing, is_hashed_password, compare_digest, verify_hashed,
  is_legacy_plaintext_password, verify_password, hash_password,
}
use zaraamad_portal_be.Password.Verify.{verify_password-hash_password}

abbrev echo : Hashing
echo = record {
  derive_digest_hex = λ password salt n. digest_hex password;
  parse_int = λ s. some 200000;
}

-- A text that is not ASCII raises where a plain password is stored.
compare_raises : verify_password echo (codes "mot de passé") (some (codes "admin")) ≡ none
unfolding verify_password is_hashed_password compare_digest
compare_raises = refl

-- A derivation that has no room for its iterations is not caught.
abbrev too_many : Hashing
too_many = record {
  derive_digest_hex = λ password salt n. overflow_error;
  parse_int = λ s. some 9999999999;
}

overflow_raises :
    verify_password too_many (codes "a") (some (codes "pbkdf2_sha256$9999999999$5a$00")) ≡ none
unfolding verify_password is_hashed_password verify_hashed
overflow_raises = refl

broken_hash_is_refused :
    verify_password echo (codes "a") (some (codes "pbkdf2_sha256$1")) ≡ some false
unfolding verify_password is_hashed_password verify_hashed
broken_hash_is_refused = refl

verify_password-hash_password_example :
    (stored : Text) × (hash_password echo (codes "5a17") (codes "secret") ≡ some stored)
    × (is_legacy_plaintext_password (some stored) ≡ false)
    × (verify_password echo (codes "guess") (some stored)
        ≡ some (text_eq (codes "guess") (codes "secret")))
verify_password-hash_password_example =
    verify_password-hash_password echo refl (codes "5a17") (codes "secret") (codes "guess")
      (codes "secret") (codes "guess") (refl, (refl, (refl, (refl, tt)))) refl refl refl refl
