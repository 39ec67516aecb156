-- ===== src/WorldCycle.antt =====
-- crates/world-cycle-core/src/lib.rs: leases, backoff and cutoffs. A `Duration` is its number of
-- nanoseconds; Unix seconds are `i64`, with its saturating operations.
pub mod Errors
pub mod Phase
pub mod Followup
pub mod Runtime
pub mod Labels
pub mod Leases
pub mod Timing
pub mod Workers
mod Tests
use world_infra.Prelude.{
  ℕ, zero, suc, ◌+◌, ◌-◌, ◌*◌, ◌/◌, ◌%◌, ◌^◌, Bool, true, false, ◌&&◌, ◌||◌, not, Option, none,
  some, is_some, is_some_and, Result, ok, err, ltb, leb, ◌==◌, min, if◌then◌else◌,
}
use world_infra.Prelude.Int.{ℤ, pos, ltb_ℤ, i64_max, saturating_add, saturating_sub}
use world_infra.Text.{Text, text_eq}
use world_infra.Time.{nanos_per_sec}
use world_infra.Backoff.{u64_max, delay_loop}
use Errors.{WorldCycleError, invalid_lease_ttl, invalid_backoff, WorkerId}

-- An option of owner against an owner.
abbrev pub is_owner : Option Text → Text → Bool
is_owner none owner = false
is_owner (some o) owner = text_eq o owner

unfoldable pub lease_expiry_is_active : Option ℤ → ℤ → Bool
lease_expiry_is_active lease_expires_at now = is_some_and lease_expires_at λ lease. ltb_ℤ now lease

pub record LeaseState : Type 0 where
  pub owner_id : Option Text
  pub expires_at : Option ℤ

unfoldable pub is_active : LeaseState → ℤ → Bool
is_active lease now = is_some lease.owner_id && lease_expiry_is_active lease.expires_at now

unfoldable pub is_active_for : LeaseState → Text → ℤ → Bool
is_active_for lease owner now =
    is_owner lease.owner_id owner && lease_expiry_is_active lease.expires_at now

unfoldable pub claimable_by : LeaseState → Text → ℤ → Bool
claimable_by lease owner now = not (is_active lease now) || is_owner lease.owner_id owner

unfoldable pub finalizing_lease_is_active : Bool → Option ℤ → ℤ → Bool
finalizing_lease_is_active finalizing lease_expires_at now =
    finalizing && lease_expiry_is_active lease_expires_at now

unfoldable pub owned_lease_is_active : Option Text → Option ℤ → ℤ → Bool
owned_lease_is_active owner_id lease_expires_at now =
    is_active (record { owner_id = owner_id; expires_at = lease_expires_at }) now

unfoldable pub duration_to_i64_seconds : ℕ → ℕ
duration_to_i64_seconds duration =
    let rounded =
      min (duration / nanos_per_sec + (if ltb 0 (duration % nanos_per_sec) then 1 else 0))
        u64_max in
    if leb rounded i64_max then rounded else i64_max

unfoldable pub duration_to_positive_i64_seconds : ℕ → ℕ
duration_to_positive_i64_seconds duration =
    let seconds = duration_to_i64_seconds duration in if ltb seconds 1 then 1 else seconds

pub record LeasePolicy : Type 0 where
  pub owner_id : WorkerId
  pub ttl : ℕ

-- `LeasePolicy::new`
unfoldable pub new_lease_policy : WorkerId → ℕ → Result WorldCycleError LeasePolicy
new_lease_policy owner_id ttl =
    if ttl == 0 then err invalid_lease_ttl else ok (record { owner_id = owner_id; ttl = ttl })

unfoldable pub ttl_seconds : LeasePolicy → ℤ
ttl_seconds policy = pos (duration_to_positive_i64_seconds policy.ttl)

unfoldable pub expires_at : LeasePolicy → ℤ → ℤ
expires_at policy now = saturating_add now (ttl_seconds policy)

pub record RetryBackoffPolicy : Type 0 where
  pub initial : ℕ
  pub max : ℕ
  pub multiplier : ℕ

-- `RetryBackoffPolicy::new`
unfoldable pub new_backoff : ℕ → ℕ → ℕ → Result WorldCycleError RetryBackoffPolicy
new_backoff initial max multiplier =
    if initial == 0 || max == 0 || multiplier == 0 || ltb max initial
    then err invalid_backoff
    else ok (record { initial = initial; max = max; multiplier = multiplier })

unfoldable pub delay_for_attempt_index : RetryBackoffPolicy → ℕ → ℕ
delay_for_attempt_index policy attempt_index =
    delay_loop policy.max policy.multiplier attempt_index policy.initial

-- `max_attempts` is a `NonZeroU32`.
pub record FollowupRetryPolicy : Type 0 where
  pub max_attempts : ℕ
  pub backoff : RetryBackoffPolicy

unfoldable pub attempts_exhausted : FollowupRetryPolicy → ℕ → Bool
attempts_exhausted policy attempts = leb policy.max_attempts attempts

unfoldable pub delay_for_attempts : FollowupRetryPolicy → ℕ → ℕ
delay_for_attempts policy attempts = delay_for_attempt_index policy.backoff attempts

unfoldable pub stale_cutoff_unix_seconds : ℤ → ℕ → ℤ
stale_cutoff_unix_seconds now grace = saturating_sub now (pos (duration_to_i64_seconds grace))

-- `keep_cycles` is a `NonZeroU32`.
unfoldable pub retention_cutoff_cycle : ℤ → ℕ → ℤ
retention_cutoff_cycle completed_cycle keep_cycles =
    saturating_sub completed_cycle (saturating_sub (pos keep_cycles) (pos 1))
