-- ===== src/Notifications/Outcomes.antt =====
-- crates/notification-core/src/lib.rs: failures of a provider and outcomes of an attempt. A `Duration` is its
-- number of nanoseconds.
use world_infra.Prelude.{ℕ, Bool, true, false, Option, none, some, Result, ok, ◌>>=◌}
use world_infra.Text.{Text}
use world_infra.Notifications.{NotificationError}
use world_infra.Notifications.Channels.{ProviderFailureCode, new_failure_code}
use world_infra.Delivery.{DeliveryAttemptOutcome}

pub data ProviderFailureClass : Type 0 where
  class_retryable class_permanent class_ambiguous : ProviderFailureClass

pub record ProviderFailure : Type 0 where
  pub class : ProviderFailureClass
  pub retry_after : Option ℕ
  pub code : Option ProviderFailureCode

-- `ProviderFailure::retryable`, `retryable_after`, `permanent` and `ambiguous_after_side_effect`.
abbrev pub retryable_failure_of : Option ℕ → ProviderFailure
retryable_failure_of retry_after = record {
  class = class_retryable;
  retry_after = retry_after;
  code = none;
}

abbrev pub permanent_failure_of : ProviderFailure
permanent_failure_of = record { class = class_permanent; retry_after = none; code = none }

abbrev pub ambiguous_failure_of : ProviderFailure
ambiguous_failure_of = record { class = class_ambiguous; retry_after = none; code = none }

-- `ProviderFailure::with_code`
unfoldable pub with_code : ProviderFailure → Text → Result NotificationError ProviderFailure
with_code failure code = do code ← new_failure_code code; ok (record failure { code = some code })

pub data NotificationProviderOutcome : Type 0 where
  accepted : NotificationProviderOutcome
  provider_retryable : Option ℕ → NotificationProviderOutcome
  provider_permanent provider_ambiguous : NotificationProviderOutcome

abbrev provider_outcome : ProviderFailureClass → Option ℕ → NotificationProviderOutcome
provider_outcome class_retryable retry_after = provider_retryable retry_after
provider_outcome class_permanent retry_after = provider_permanent
provider_outcome class_ambiguous retry_after = provider_ambiguous

unfoldable pub as_provider_outcome : ProviderFailure → NotificationProviderOutcome
as_provider_outcome failure = provider_outcome failure.class failure.retry_after

unfoldable pub as_delivery_outcome : NotificationProviderOutcome → DeliveryAttemptOutcome
as_delivery_outcome accepted = DeliveryAttemptOutcome.delivered
as_delivery_outcome (provider_retryable retry_after) =
    DeliveryAttemptOutcome.retryable_failure retry_after
as_delivery_outcome provider_permanent = DeliveryAttemptOutcome.permanent_failure
as_delivery_outcome provider_ambiguous = DeliveryAttemptOutcome.ambiguous_after_side_effect

abbrev pub is_retryable_failure : NotificationProviderOutcome → Bool
is_retryable_failure (provider_retryable retry_after) = true
is_retryable_failure _ = false

abbrev pub is_permanent_failure : NotificationProviderOutcome → Bool
is_permanent_failure provider_permanent = true
is_permanent_failure _ = false

abbrev pub is_ambiguous_after_side_effect : NotificationProviderOutcome → Bool
is_ambiguous_after_side_effect provider_ambiguous = true
is_ambiguous_after_side_effect _ = false
