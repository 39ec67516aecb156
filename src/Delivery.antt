-- ===== src/Delivery.antt =====
-- crates/delivery-core/src/lib.rs: lease tokens, attempts, backoff and the report of a run. A
-- `Duration` is its number of nanoseconds; an `i32` is an integer.
pub mod Laws
mod Tests
use world_infra.Prelude.{
  ℕ, zero, suc, ◌+◌, ◌-◌, ◌^◌, Bool, true, false, ◌||◌, Option, none, some, any, Result, ok, err,
  ◌>>=◌, ◌>>◌, fail_if, ltb, ◌==◌, min, if◌then◌else◌,
}
use world_infra.Prelude.Int.{ℤ, pos, negsuc}
use world_infra.Text.{Text, is_control, is_whitespace, trim, is_empty}
use world_infra.Backoff.{delay_loop}

abbrev pub u32_max : ℕ
u32_max = 2 ^ 32 - 1

pub data DeliveryStatus : Type 0 where
  pending running delivered failed exhausted : DeliveryStatus

pub data DeliveryError : Type 0 where
  invalid_lease_token invalid_backoff : DeliveryError

pub record LeaseToken : Type 0 where
  pub value : Text

-- `LeaseToken::new`
unfoldable pub new_lease_token : Text → Result DeliveryError LeaseToken
new_lease_token value = do
  fail_if (any is_control value) invalid_lease_token
  let value = trim value
  fail_if (is_empty value || any is_whitespace value) invalid_lease_token
  ok (record { value = value })

pub record ClaimedDelivery {ℓ κ} (Item : Type ℓ) (Payload : Type κ) : Type (ℓ ⊔ κ) where
  pub id : Item
  pub lease_token : LeaseToken
  pub attempt : ℕ
  pub payload : Payload

pub data DeliveryAttemptOutcome : Type 0 where
  delivered : DeliveryAttemptOutcome
  retryable_failure : Option ℕ → DeliveryAttemptOutcome
  permanent_failure ambiguous_after_side_effect : DeliveryAttemptOutcome

-- `u32::saturating_add(1)`
abbrev pub increment : ℕ → ℕ
increment n = min (n + 1) u32_max

unfoldable pub attempt_from_completed_count : ℕ → ℕ
attempt_from_completed_count completed_count = increment completed_count

unfoldable pub attempt_from_completed_count_i32 : ℤ → Option ℕ
attempt_from_completed_count_i32 (pos completed_count) = some (increment completed_count)
attempt_from_completed_count_i32 (negsuc n) = none

pub record BackoffPolicy : Type 0 where
  pub initial : ℕ
  pub max : ℕ
  pub multiplier : ℕ

-- `BackoffPolicy::new`
unfoldable pub new_backoff : ℕ → ℕ → ℕ → Result DeliveryError BackoffPolicy
new_backoff initial max multiplier =
    if initial == 0 || max == 0 || multiplier == 0 || ltb max initial
    then err invalid_backoff
    else ok (record { initial = initial; max = max; multiplier = multiplier })

unfoldable pub delay_for_attempt : BackoffPolicy → ℕ → ℕ
delay_for_attempt policy attempt =
    delay_loop policy.max policy.multiplier (attempt - 1) policy.initial

unfoldable pub delay_for_completed_attempts : BackoffPolicy → ℕ → ℕ
delay_for_completed_attempts policy completed_count =
    delay_for_attempt policy (attempt_from_completed_count completed_count)

unfoldable pub delay_for_completed_attempts_i32 : BackoffPolicy → ℤ → Option ℕ
delay_for_completed_attempts_i32 policy completed_count =
    elim (attempt_from_completed_count_i32 completed_count) [
      | none ↦ none
      | some attempt ↦ some (delay_for_attempt policy attempt)
    ]

-- `RetrySchedule` wraps a policy, and its methods forward to the policy's.
pub record RetrySchedule : Type 0 where
  pub policy : BackoffPolicy

unfoldable pub scheduled_delay_for_attempt : RetrySchedule → ℕ → ℕ
scheduled_delay_for_attempt schedule attempt = delay_for_attempt schedule.policy attempt

unfoldable pub scheduled_delay_for_completed_attempts : RetrySchedule → ℕ → ℕ
scheduled_delay_for_completed_attempts schedule completed_count =
    delay_for_completed_attempts schedule.policy completed_count

unfoldable pub scheduled_delay_for_completed_attempts_i32 : RetrySchedule → ℤ → Option ℕ
scheduled_delay_for_completed_attempts_i32 schedule completed_count =
    delay_for_completed_attempts_i32 schedule.policy completed_count

pub record DeliveryRunReport : Type 0 where
  pub claimed : ℕ
  pub delivered : ℕ
  pub retryable_failed : ℕ
  pub permanently_failed : ℕ
  pub ambiguous_after_side_effect : ℕ

-- `DeliveryRunReport::record`
unfoldable pub record_outcome : DeliveryRunReport → DeliveryAttemptOutcome → DeliveryRunReport
record_outcome report DeliveryAttemptOutcome.delivered = record report {
  delivered = increment report.delivered;
}
record_outcome report (retryable_failure retry_after) = record report {
  retryable_failed = increment report.retryable_failed;
}
record_outcome report permanent_failure = record report {
  permanently_failed = increment report.permanently_failed;
}
record_outcome report DeliveryAttemptOutcome.ambiguous_after_side_effect = record report {
  ambiguous_after_side_effect = increment report.ambiguous_after_side_effect;
}
