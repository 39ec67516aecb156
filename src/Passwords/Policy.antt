-- ===== src/Passwords/Policy.antt =====
-- crates/auth-password-core/src/lib.rs: the check of a file of breached passwords, the lookup in it and the
-- policy. Parameters are the decoding of UTF-8, the opening of a file and the hexadecimal SHA-1.
use world_infra.Prelude.{
  ℕ, ◌+◌, ◌*◌, Bool, true, false, ◌&&◌, Option, none, some, List, [], ◌∷◌, ◌++◌, length, ◌==◌,
  Result, ok, err, fail_if, map_err, ok_or, ◌>>=◌, ◌>>◌, if◌then◌else◌,
}
use world_infra.Text.{Text, codes, trim, is_empty}
use world_infra.Text.Decimal.{decimal}
use world_infra.Passwords.{
  PasswordError, common, breached, breach_file, CommonPasswordNormalization, trim_lowercase,
  is_common_password_with_policy, validate_password_length_range,
}
use world_infra.Passwords.Breaches.{
  Ordering, less, text_cmp, normalize_sha1_hash, breached_hash_from_line,
  BreachedPasswordFileOptions, File, validate_breach_file_metadata, lines, decode,
  breached_password_hash_sorted_file_contains, breached_password_hash_linear_scan_contains,
}

pub record PasswordPolicy : Type 0 where
  pub min_chars : ℕ
  pub max_chars : ℕ
  pub reject_common : Bool
  pub additional_common_passwords : List Text
  pub common_password_normalization : CommonPasswordNormalization
  pub breached_sha1_file : Option Text
  pub breached_sha1_file_sorted : Bool
  pub breached_sha1_min_bytes : ℕ
  pub linear_scan_max_bytes : ℕ

abbrev pub default_policy : PasswordPolicy
default_policy = record {
  min_chars = 1;
  max_chars = 256;
  reject_common = true;
  additional_common_passwords = [];
  common_password_normalization = trim_lowercase;
  breached_sha1_file = none;
  breached_sha1_file_sorted = true;
  breached_sha1_min_bytes = 1;
  linear_scan_max_bytes = 64 * 1024 * 1024;
}

abbrev pub is_less : Ordering → Bool
is_less less = true
is_less _ = false

-- A hash is below the one in front of it.
abbrev pub is_below : Text → Option Text → Bool
is_below hash none = false
is_below hash (some previous_hash) = is_less (text_cmp hash previous_hash)

abbrev pub at_line : Text → ℕ → PasswordError
at_line message number = breach_file (message ++ decimal number)

module _ (from_utf8 : List ℕ → Option Text) where
  -- The loop over the lines, with the number of the next line and the hash in front of it.
  unfoldable pub validate_lines :
      Bool → ℕ → Option Text → List (List ℕ) → Result PasswordError (Unit {0})
  validate_lines sorted number previous_hash [] = ok tt
  validate_lines sorted number previous_hash (line ∷ lines) = do
    line ← decode from_utf8 line
    fail_if (is_empty (trim line))
        (at_line (codes "blank breached password SHA-1 entry on line ") number)
    hash ←
        ok_or (breached_hash_from_line line)
          (at_line (codes "invalid breached password SHA-1 entry on line ") number)
    fail_if (sorted && is_below hash previous_hash)
        (at_line (codes "breached password SHA-1 file is not sorted at line ") number)
    validate_lines sorted (number + 1) (some hash) lines

  module _ (open_file : Text → Result Text File) where
    abbrev pub open_path : Text → Result PasswordError File
    open_path path = map_err breach_file (open_file path)

    unfoldable pub validate_breached_password_file :
        Text → BreachedPasswordFileOptions → Result PasswordError (Unit {0})
    validate_breached_password_file path options = do
      file ← open_path path
      validate_breach_file_metadata file options
      validate_lines options.sorted 1 none (lines file.bytes)
      fail_if (length (lines file.bytes) == 0)
          (breach_file (codes "breached password SHA-1 file contains no valid hashes"))

    -- The outer option is the one of the search.
    unfoldable pub file_contains :
        File → Text → BreachedPasswordFileOptions → Option (Result PasswordError Bool)
    file_contains file password_hash options = elim (validate_breach_file_metadata file options) [
      | err e ↦ some (err e)
      | ok done ↦ elim (normalize_sha1_hash password_hash) [
        | err e ↦ some (err e)
        | ok hash ↦
            if options.sorted
            then breached_password_hash_sorted_file_contains from_utf8 file.bytes hash
            else some (breached_password_hash_linear_scan_contains from_utf8 file hash options)
      ]
    ]

    unfoldable pub breached_password_file_contains :
        Text → Text → BreachedPasswordFileOptions → Option (Result PasswordError Bool)
    breached_password_file_contains path password_hash options = elim (open_path path) [
      | err e ↦ some (err e)
      | ok file ↦ file_contains file password_hash options
    ]

    abbrev pub refuse_breached : Result PasswordError Bool → Result PasswordError (Unit {0})
    refuse_breached found = found >>= λ found. fail_if found breached

    -- `PasswordPolicy::validate`
    unfoldable pub validate_policy :
        (Text → Text) → PasswordPolicy → Text → Option (Result PasswordError (Unit {0}))
    validate_policy sha1_hex policy password =
        let checked : Result PasswordError (Unit {0}) = (do
          validate_password_length_range password policy.min_chars policy.max_chars
          fail_if
              (policy.reject_common
                && is_common_password_with_policy password policy.common_password_normalization
                    policy.additional_common_passwords)
              common) in
        elim checked [
          | err e ↦ some (err e)
          | ok done ↦ elim policy.breached_sha1_file [
            | none ↦ some (ok tt)
            | some path ↦
                elim (breached_password_file_contains path (sha1_hex password) (record {
                  sorted = policy.breached_sha1_file_sorted;
                  min_bytes = policy.breached_sha1_min_bytes;
                  linear_scan_max_bytes = policy.linear_scan_max_bytes;
                })) [ none ↦ none | some found ↦ some (refuse_breached found) ]
          ]
        ]
