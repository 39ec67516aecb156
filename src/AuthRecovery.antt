-- ===== src/AuthRecovery.antt =====
-- crates/auth-recovery-core/src/lib.rs: the shape of recovery tokens and the padding of responses. The
-- random source is a parameter that picks a number from a range. Durations are nanoseconds, up to
-- `Duration::MAX`.
mod Shapes
mod Padding
mod Tests
use world_infra.Prelude.{
  ℕ, zero, suc, ◌+◌, ◌-◌, ◌*◌, ◌^◌, min, Bool, true, false, not, ◌&&◌, ◌||◌, [], ◌∷◌, any, all,
  length, leb, ltb, ◌==◌, Result, ok, err, fail_if, ◌>>=◌, ◌>>◌, if◌then◌else◌,
}
use world_infra.Text.{Text, text_eq, byte_length, is_control, is_ascii_alphanumeric, trim, is_empty}
use world_infra.Text.Scan.{is_ascii_digit}

pub data AuthRecoveryError : Type 0 where
  empty_token invalid_token invalid_padding_policy : AuthRecoveryError

pub data RecoveryTokenStatus : Type 0 where
  missing gone usable : RecoveryTokenStatus

unfoldable pub status_is_credential_miss : RecoveryTokenStatus → Bool
status_is_credential_miss missing = true
status_is_credential_miss gone = true
status_is_credential_miss usable = false

pub data ConsumeRecoveryTokenResult : Type 0 where
  not_found not_usable consumed : ConsumeRecoveryTokenResult

unfoldable pub result_is_credential_miss : ConsumeRecoveryTokenResult → Bool
result_is_credential_miss not_found = true
result_is_credential_miss not_usable = true
result_is_credential_miss consumed = false

pub record RecoveryTokenPolicy : Type 0 where
  pub allow_uuid : Bool
  pub allow_url_safe : Bool
  pub url_safe_len : ℕ

-- `RecoveryTokenPolicy::default`
abbrev pub default_recovery_policy : RecoveryTokenPolicy
default_recovery_policy = record { allow_uuid = true; allow_url_safe = true; url_safe_len = 43 }

unfoldable pub is_ascii_hexdigit : ℕ → Bool
is_ascii_hexdigit byte =
    is_ascii_digit byte || ((leb b'a' byte && leb byte b'f') || (leb b'A' byte && leb byte b'F'))

-- The loop over the bytes; a byte past ASCII is refused, as its character is here.
unfoldable pub uuid_bytes : ℕ → Text → Bool
uuid_bytes idx [] = true
uuid_bytes idx (byte ∷ bytes) =
    (if idx == 8 || (idx == 13 || (idx == 18 || idx == 23))
      then byte == b'-'
      else is_ascii_hexdigit byte)
    && uuid_bytes (suc idx) bytes

unfoldable pub is_uuid_like : Text → Bool
is_uuid_like token = byte_length token == 36 && uuid_bytes 0 token

abbrev pub is_url_safe_byte : ℕ → Bool
is_url_safe_byte byte = is_ascii_alphanumeric byte || (byte == b'-' || byte == b'_')

unfoldable pub accept_shape : Text → RecoveryTokenPolicy → Result AuthRecoveryError Text
accept_shape token policy =
    if policy.allow_uuid && is_uuid_like token
    then ok token
    else if policy.allow_url_safe
        && (byte_length token == policy.url_safe_len && all is_url_safe_byte token)
    then ok token
    else err invalid_token

unfoldable pub validate_recovery_token : Text → RecoveryTokenPolicy → Result AuthRecoveryError Text
validate_recovery_token token policy = do
  fail_if (not (text_eq (trim token) token)) invalid_token
  fail_if (is_empty token) empty_token
  fail_if (any is_control token) invalid_token
  accept_shape token policy

abbrev is_ok : Result AuthRecoveryError Text → Bool
is_ok (ok token) = true
is_ok (err e) = false

unfoldable pub plausible_recovery_token : Text → RecoveryTokenPolicy → Bool
plausible_recovery_token token policy = is_ok (validate_recovery_token token policy)

abbrev pub duration_max : ℕ
duration_max = 2 ^ 64 * 1_000_000_000 - 1

abbrev pub from_millis : ℕ → ℕ
from_millis ms = ms * 1_000_000

pub record ResponsePaddingPolicy : Type 0 where
  pub base : ℕ
  pub jitter_start : ℕ
  pub jitter_end : ℕ

-- `ResponsePaddingPolicy::new`
unfoldable pub new_response_padding : ℕ → ℕ → ℕ → Result AuthRecoveryError ResponsePaddingPolicy
new_response_padding base jitter_start jitter_end = do
  fail_if (ltb jitter_end jitter_start) invalid_padding_policy
  ok (record { base = base; jitter_start = jitter_start; jitter_end = jitter_end })

unfoldable pub from_millis_bounds : ℕ → ℕ → Result AuthRecoveryError ResponsePaddingPolicy
from_millis_bounds min_ms max_ms = do
  fail_if (ltb max_ms min_ms) invalid_padding_policy
  new_response_padding (from_millis min_ms) 0 (max_ms - min_ms)

unfoldable pub target_duration : (ℕ → ℕ → ℕ) → ResponsePaddingPolicy → ℕ
target_duration gen_range policy =
    min (policy.base + from_millis (gen_range policy.jitter_start policy.jitter_end)) duration_max

unfoldable pub remaining_delay : ℕ → ℕ → ℕ
remaining_delay target elapsed = target - elapsed
