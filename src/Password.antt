-- ===== src/Password.antt =====
-- app/common/security/password_service.py. The key derivation (`hashlib.pbkdf2_hmac` with
-- `bytes.fromhex`) and `int` are parameters; the salt, which `token_hex` draws, is an argument.
pub mod Verify
mod Tests
use zaraamad_portal_be.Base.{
  ℕ, Bool, true, false, not, ◌&&◌, Option, none, some, List, [], ◌∷◌, ◌++◌, ◌==◌, ltb,
  if◌then◌else◌,
}
use zaraamad_portal_be.Text.{Text, codes, text_eq, is_empty, after_prefix}

abbrev pub algorithm : Text
algorithm = codes "pbkdf2_sha256"

abbrev pub iterations_text : Text
iterations_text = codes "200000"

-- How the key derivation ends: with a digest, with a `ValueError`, as for a salt that is not
-- hexadecimal or no iterations, or with an `OverflowError`, as for too many iterations.
pub data Derivation : Type 0 where
  digest_hex : Text → Derivation
  value_error overflow_error : Derivation

-- What the service uses of `hashlib` and `int`. `none` is the `ValueError` of `int`; a number below
-- 0, with which the derivation raises a `ValueError`, is `none` too.
pub record Hashing : Type 0 where
  -- password, salt in hexadecimal digits, iterations
  pub derive_digest_hex : Text → Text → ℕ → Derivation
  pub parse_int : Text → Option ℕ

-- The text before the first `$` and the text behind it.
pub split_dollar : Text → Option (Text × Text)
split_dollar [] = none
split_dollar (c ∷ s) =
    let rest = split_dollar s in
    if c == b'$' then some ([], s) else elim rest [ none ↦ none | some (a, b) ↦ some (c ∷ a, b) ]

abbrev pub is_ascii : Text → Bool
is_ascii [] = true
is_ascii (c ∷ s) = ltb c 128 && is_ascii s

-- `secrets.compare_digest` on texts: `none` is the `TypeError` on a text that is not ASCII.
unfoldable pub compare_digest : Text → Text → Option Bool
compare_digest a b = if is_ascii a && is_ascii b then some (text_eq a b) else none

unfoldable pub is_hashed_password : Option Text → Bool
unfolding after_prefix
is_hashed_password none = false
is_hashed_password (some s) = elim (after_prefix (algorithm ++ b'$' ∷ []) s) [
  | none ↦ false
  | some _ ↦ true
]

unfoldable pub is_legacy_plaintext_password : Option Text → Bool
is_legacy_plaintext_password none = false
is_legacy_plaintext_password (some s) = not (is_empty s) && not (is_hashed_password (some s))

-- The three texts behind the algorithm: `_, iterations, salt, digest = stored.split("$", 3)`.
pub split_stored : Text → Option (Text × Text × Text)
unfolding split_dollar
split_stored s = elim (split_dollar s) [
  | none ↦ none
  | some (_, a) ↦ elim (split_dollar a) [
    | none ↦ none
    | some (iterations, b) ↦ elim (split_dollar b) [
      | none ↦ none
      | some (salt, digest) ↦ some (iterations, salt, digest)
    ]
  ]
]

module _ (h : Hashing) where
  -- `_derive_digest_hex` with the texts of a stored password, in its `try`.
  pub derived : Text → Text → Text → Derivation
  derived password iterations salt = elim (h.parse_int iterations) [
    | none ↦ value_error
    | some n ↦ h.derive_digest_hex password salt n
  ]

  -- A `ValueError` is caught, an `OverflowError` is not.
  abbrev compare_derived : Text → Derivation → Option Bool
  compare_derived expected (digest_hex actual) = compare_digest actual expected
  compare_derived expected value_error = some false
  compare_derived expected overflow_error = none

  pub verify_hashed : Text → Text → Option Bool
  unfolding split_stored derived
  verify_hashed password stored = elim (split_stored stored) [
    | none ↦ some false
    | some (iterations, salt, expected) ↦
        compare_derived expected (derived password iterations salt)
  ]

  -- `none` is a raised `TypeError` or `OverflowError`.
  unfoldable pub verify_password : Text → Option Text → Option Bool
  verify_password password none = some false
  verify_password password (some stored) =
      if is_empty stored
      then some false
      else if is_hashed_password (some stored)
      then verify_hashed password stored
      else compare_digest password stored

  abbrev stored_form : Text → Derivation → Option Text
  stored_form salt (digest_hex digest) =
      some (algorithm ++ b'$' ∷ (iterations_text ++ b'$' ∷ (salt ++ b'$' ∷ digest)))
  stored_form salt value_error = none
  stored_form salt overflow_error = none

  -- `hash_password`; `none` where the derivation raises.
  unfoldable pub hash_password : Text → Text → Option Text
  hash_password salt password = stored_form salt (h.derive_digest_hex password salt 200000)
