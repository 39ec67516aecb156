-- ===== src/AuthRecovery/Tests.antt =====
-- Tokens and padding at concrete inputs.
use world_infra.Prelude.{ℕ, ◌≡◌, refl, true}
use world_infra.Text.{Text, codes, trim, trim_start, is_whitespace, is_control}
use world_infra.AuthRecovery.{
  ResponsePaddingPolicy, target_duration, remaining_delay, plausible_recovery_token,
  default_recovery_policy, validate_recovery_token, accept_shape, is_uuid_like, uuid_bytes,
  is_ascii_hexdigit,
}

abbrev uuid : Text
uuid = codes "123e4567-e89b-12d3-a456-426614174000"

uuid_plausible : plausible_recovery_token uuid default_recovery_policy ≡ true
unfolding plausible_recovery_token validate_recovery_token trim trim_start is_whitespace is_control
    accept_shape is_uuid_like uuid_bytes is_ascii_hexdigit
uuid_plausible = refl

-- A source that picks the end of the range.
abbrev last : ℕ → ℕ → ℕ
last a b = b

abbrev policy : ResponsePaddingPolicy
policy = record { base = 200_000_000; jitter_start = 0; jitter_end = 100 }

late : remaining_delay (target_duration last policy) 250_000_000 ≡ 50_000_000
unfolding remaining_delay target_duration
late = refl
