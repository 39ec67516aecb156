-- ===== src/Delivery/Laws.antt =====
-- Delays in closed form, and what a report counts.
use world_infra.Prelude.{
  ℕ, suc, ◌+◌, ◌*◌, ◌^◌, ◌≤◌, ◌<◌, ◌≡◌, none, some, List, [], ◌∷◌, ok, min, arith,
}
use world_infra.Prelude.Int.{pos, negsuc}
use world_infra.Backoff.{duration_max}
use world_infra.Backoff.Laws.{delay_loop_lem}
use world_infra.Delivery.{
  scheduled_delay_for_attempt, scheduled_delay_for_completed_attempts,
  scheduled_delay_for_completed_attempts_i32, u32_max, DeliveryAttemptOutcome, retryable_failure,
  permanent_failure, BackoffPolicy, new_backoff, attempt_from_completed_count,
  attempt_from_completed_count_i32, delay_for_attempt, delay_for_completed_attempts,
  delay_for_completed_attempts_i32, DeliveryRunReport, record_outcome,
}

-- For an accepted policy, whose maximum is a `Duration`, and fewer than u32::MAX completed
-- attempts: the delay of a one-based attempt and the delays by completed attempts, unsigned and
-- signed, are one closed form, also through a schedule; a negative count has none.
pub delay_for_attempt_lem :
    (initial max multiplier : ℕ) (policy : BackoffPolicy) (completed : ℕ)
    → new_backoff initial max multiplier ≡ ok policy
    → max ≤ duration_max
    → completed < u32_max
    → let delay = min max (initial * multiplier ^ completed) in
      (delay_for_attempt policy (suc completed) ≡ delay)
      × (delay_for_completed_attempts policy completed ≡ delay)
      × (delay_for_completed_attempts_i32 policy (pos completed) ≡ some delay)
      × (delay_for_completed_attempts_i32 policy (negsuc completed) ≡ none)
      × (scheduled_delay_for_attempt (record { policy = policy }) (suc completed) ≡ delay)
      × (scheduled_delay_for_completed_attempts (record { policy = policy }) completed ≡ delay)
      × (scheduled_delay_for_completed_attempts_i32 (record { policy = policy }) (pos completed)
          ≡ some delay)
unfolding scheduled_delay_for_attempt scheduled_delay_for_completed_attempts
    scheduled_delay_for_completed_attempts_i32 new_backoff delay_for_attempt
    delay_for_completed_attempts delay_for_completed_attempts_i32 attempt_from_completed_count
    attempt_from_completed_count_i32
delay_for_attempt_lem initial max multiplier policy completed h b u =
    ground (arith, delay_loop_lem max multiplier completed initial b)

-- The report after a run, one outcome after the other.
unfoldable pub record_all : DeliveryRunReport → List DeliveryAttemptOutcome → DeliveryRunReport
record_all report [] = report
record_all report (outcome ∷ outcomes) = record_all (record_outcome report outcome) outcomes

-- How many of the outcomes are of each kind.
abbrev pub deliveries : List DeliveryAttemptOutcome → ℕ
deliveries [] = 0
deliveries (DeliveryAttemptOutcome.delivered ∷ os) = suc (deliveries os)
deliveries (_ ∷ os) = deliveries os

abbrev pub retries : List DeliveryAttemptOutcome → ℕ
retries [] = 0
retries (retryable_failure _ ∷ os) = suc (retries os)
retries (_ ∷ os) = retries os

abbrev pub failures : List DeliveryAttemptOutcome → ℕ
failures [] = 0
failures (permanent_failure ∷ os) = suc (failures os)
failures (_ ∷ os) = failures os

abbrev pub ambiguities : List DeliveryAttemptOutcome → ℕ
ambiguities [] = 0
ambiguities (DeliveryAttemptOutcome.ambiguous_after_side_effect ∷ os) = suc (ambiguities os)
ambiguities (_ ∷ os) = ambiguities os

-- A report whose counts fit u32 counts each kind of outcome apart, up to the end of u32, and
-- leaves the claims.
pub record_all_lem :
    (report : DeliveryRunReport) (outcomes : List DeliveryAttemptOutcome)
    → report.delivered ≤ u32_max
    → report.retryable_failed ≤ u32_max
    → report.permanently_failed ≤ u32_max
    → report.ambiguous_after_side_effect ≤ u32_max
    → record_all report outcomes ≡ record {
      claimed = report.claimed;
      delivered = min (report.delivered + deliveries outcomes) u32_max;
      retryable_failed = min (report.retryable_failed + retries outcomes) u32_max;
      permanently_failed = min (report.permanently_failed + failures outcomes) u32_max;
      ambiguous_after_side_effect =
          min (report.ambiguous_after_side_effect + ambiguities outcomes) u32_max;
    }
unfolding record_all record_outcome
record_all_lem report [] d r p a = ground arith
record_all_lem report (DeliveryAttemptOutcome.delivered ∷ os) d r p a =
    ground (arith, record_all_lem (record_outcome report DeliveryAttemptOutcome.delivered) os)
record_all_lem report (retryable_failure after ∷ os) d r p a =
    ground (arith, record_all_lem (record_outcome report (retryable_failure after)) os)
record_all_lem report (permanent_failure ∷ os) d r p a =
    ground (arith, record_all_lem (record_outcome report permanent_failure) os)
record_all_lem report (DeliveryAttemptOutcome.ambiguous_after_side_effect ∷ os) d r p a = ground (
  arith,
  record_all_lem (record_outcome report DeliveryAttemptOutcome.ambiguous_after_side_effect) os,
)
