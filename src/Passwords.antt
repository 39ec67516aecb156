-- ===== src/Passwords.antt =====
-- crates/auth-password-core/src/lib.rs: the policy on passwords. SHA-1 and Argon2 are parameters.
pub mod Breaches
pub mod Policy
mod Lines
mod Probes
mod Rounds
mod Search
mod LineEnds
mod ScannedLines
mod AcceptedLines
mod LinearScan
mod FileLookup
mod Tests
use world_infra.Prelude.{
  ℕ, Bool, false, ◌||◌, List, [], ◌∷◌, any, length, retain, ltb, ◌==◌, Result, ok, err, fail_if,
  ◌>>=◌, ◌>>◌, if◌then◌else◌,
}
use world_infra.Text.{Text, codes, text_eq, is_ascii_alphanumeric, trim, is_empty}
use world_infra.Text.Scan.{to_ascii_lowercase}

pub data PasswordError : Type 0 where
  empty : PasswordError
  too_short too_long : ℕ → ℕ → PasswordError
  common breached : PasswordError
  breach_file : Text → PasswordError

pub data CommonPasswordNormalization : Type 0 where
  trim_lowercase ascii_alphanumeric_lowercase : CommonPasswordNormalization

abbrev pub common_passwords : List Text
common_passwords =
    codes "123456"
    ∷ codes "123456789"
    ∷ codes "qwerty"
    ∷ codes "password"
    ∷ codes "password1"
    ∷ codes "password12"
    ∷ codes "password123"
    ∷ codes "password1234"
    ∷ codes "password12345"
    ∷ codes "password123456"
    ∷ codes "password1234567"
    ∷ codes "password12345678"
    ∷ codes "password123456789"
    ∷ codes "letmein"
    ∷ codes "letmein123456"
    ∷ codes "welcome"
    ∷ codes "welcome123456"
    ∷ codes "admin"
    ∷ codes "admin12345678"
    ∷ codes "administrator"
    ∷ codes "iloveyou"
    ∷ codes "iloveyou12345"
    ∷ codes "football"
    ∷ codes "football12345"
    ∷ codes "baseball12345"
    ∷ codes "monkey"
    ∷ codes "monkey123456"
    ∷ codes "dragon"
    ∷ codes "dragon123456"
    ∷ codes "sunshine"
    ∷ codes "sunshine12345"
    ∷ codes "princess"
    ∷ codes "princess1234"
    ∷ codes "qwerty123456"
    ∷ codes "qwertyuiop123"
    ∷ codes "123456789012"
    ∷ codes "1234567890123"
    ∷ codes "12345678901234"
    ∷ codes "123456789012345"
    ∷ codes "1234567890ab"
    ∷ codes "trustno112345"
    ∷ codes "starwars1234"
    ∷ codes "passw0rd1234"
    ∷ codes "abc123456789"
    ∷ codes "chairman"
    ∷ codes "airline"
    ∷ []

unfoldable pub normalize_common_password : Text → CommonPasswordNormalization → Text
normalize_common_password password trim_lowercase = to_ascii_lowercase (trim password)
normalize_common_password password ascii_alphanumeric_lowercase =
    to_ascii_lowercase (retain is_ascii_alphanumeric password)

-- A list of passwords has one with the same normal form.
abbrev pub has_normal_form : Text → CommonPasswordNormalization → List Text → Bool
has_normal_form normalized normalization passwords =
    any (λ common. text_eq (normalize_common_password common normalization) normalized) passwords

unfoldable pub is_common_password_with_policy :
    Text → CommonPasswordNormalization → List Text → Bool
is_common_password_with_policy password normalization additional_common_passwords =
    let normalized = normalize_common_password password normalization in
    if is_empty normalized
    then false
    else has_normal_form normalized normalization common_passwords
      || has_normal_form normalized normalization additional_common_passwords

unfoldable pub is_common_password : Text → Bool
is_common_password password = is_common_password_with_policy password trim_lowercase []

unfoldable pub validate_password_length_range : Text → ℕ → ℕ → Result PasswordError (Unit {0})
validate_password_length_range password min_chars max_chars = do
  let chars = length password
  fail_if (chars == 0) empty
  fail_if (ltb chars min_chars) (too_short chars min_chars)
  fail_if (ltb max_chars chars) (too_long chars max_chars)

abbrev pub validate_password_length : Text → ℕ → Result PasswordError (Unit {0})
validate_password_length password max_chars = validate_password_length_range password 1 max_chars
