-- ===== src/RateLimit/TextTests.antt =====
-- Limits and subjects written as text, at concrete inputs.
use world_infra.Prelude.{◌≡◌, refl, ok, err}
use world_infra.Text.{
  Text, codes, byte_length, is_control, is_whitespace, is_ascii_alphanumeric, trim, trim_start,
}
use world_infra.Text.Decimal.{decimal}
use world_infra.Text.Scan.{split_once, strip_prefix, strip_suffix, parse_digits, parse_unsigned}
use world_infra.RateLimit.{fixed, unlimited, invalid_window, new_fixed, validate_key_part, new_key}
use world_infra.RateLimit.Parse.{
  named_window, number_and_scale, scaled_window, parse_window, parse_fixed,
  parse_limit_spec_with_mode, parse_limit_spec, parse_limit_spec_strict,
}
use world_infra.RateLimit.Subject.{length_prefixed_subject_key, raw_key, key_of_parts, subject_key}
use world_infra.RateLimit.SubjectLaws.{subject_key-injective}

runtime : Unit {0}
unfolding parse_limit_spec parse_limit_spec_strict parse_limit_spec_with_mode parse_fixed
    parse_window scaled_window number_and_scale named_window split_once strip_prefix strip_suffix
    parse_digits parse_unsigned length_prefixed_subject_key raw_key key_of_parts subject_key
    validate_key_part new_key decimal trim trim_start is_control is_whitespace is_ascii_alphanumeric
    new_fixed
runtime = tt

named_test : parse_limit_spec (codes " 10/Min") ≡ ok (fixed 10 60_000_000_000)
unfolding runtime
named_test = refl

off_test : parse_limit_spec_strict (codes "OFF") ≡ ok unlimited
unfolding runtime
off_test = refl

bare_test : parse_limit_spec (codes "10/60") ≡ ok (fixed 10 60_000_000_000)
unfolding runtime
bare_test = refl

strict_test : parse_limit_spec_strict (codes "10/60") ≡ err invalid_window
unfolding runtime
strict_test = refl

-- In place of a digest.
abbrev size_hex : Text → Text
size_hex text = decimal (byte_length text)

abbrev user : Text
user = codes " ann smith"

key_test :
    subject_key size_hex (codes "api") (codes "login") (codes "ann")
    ≡ ok (codes "subject:v2:p3:api:l5:login:raw:s3:ann")
unfolding runtime
key_test = refl

subject_key-injective_example :
    (validate_key_part (codes "api") ≡ validate_key_part (codes "api "))
    × (validate_key_part (codes "login") ≡ validate_key_part (codes "login"))
    × (trim user ≡ trim (codes "ann smith "))
unfolding runtime
subject_key-injective_example =
    subject_key-injective size_hex (codes "api") (codes "api ") (codes "login") (codes "login") user
      (codes "ann smith ") (codes "subject:v2:p3:api:l5:login:sha256:s1:9") refl refl (λ e. refl)
      refl refl
