-- ===== src/Notifications/Contexts.antt =====
-- The contexts of crates/notification-core/src/lib.rs from the columns of a table.
use world_infra.Prelude.{ℕ, ◌+◌, ◌<◌, ◌≡◌, sym, ap, refl, err, ok, arith}
use world_infra.Prelude.Int.{ℤ, pos, negsuc}
use world_infra.Text.{Text}
use world_infra.Notifications.{invalid_attempt}
use world_infra.Delivery.{u32_max}
use world_infra.Notifications.Channels.{
  new_attempt, attempt_from_i32, next_attempt, next_attempt_i32, context_with, from_raw_fields,
  from_raw_i32_fields, from_completed_count_fields, from_completed_count_i32_fields,
}

new_attempt-suc : (n : ℕ) → n < u32_max → ok (next_attempt n) ≡ new_attempt (n + 1)
unfolding new_attempt next_attempt
new_attempt-suc n h = ground arith

attempt_from_i32-pos : (n : ℕ) → attempt_from_i32 (pos n) ≡ new_attempt n
unfolding attempt_from_i32 new_attempt
attempt_from_i32-pos n = ground arith

zero_attempt : new_attempt 0 ≡ err invalid_attempt
unfolding new_attempt
zero_attempt = refl

attempt_from_i32-negsuc : (n : ℕ) → attempt_from_i32 (negsuc n) ≡ new_attempt 0
unfolding attempt_from_i32 new_attempt
attempt_from_i32-negsuc n = refl

-- The four ways to read a context agree on their errors and their values, for a number below the maximum: a
-- signed column gives what an unsigned one of its number gives, a negative number what the attempt 0
-- gives, which is not valid, and a number of completed attempts what the next attempt gives.
pub from_completed_count_fields-from_raw_fields {ℓ} :
    {DeliveryId : Type ℓ} (delivery_id : DeliveryId) (channel : Text) (delivery_version : ℤ) (n : ℕ)
    → n < u32_max
    → (from_raw_i32_fields delivery_id channel delivery_version (pos n)
        ≡ from_raw_fields delivery_id channel delivery_version n)
      × (from_completed_count_i32_fields delivery_id channel delivery_version (pos n)
          ≡ from_completed_count_fields delivery_id channel delivery_version n)
      × (from_raw_i32_fields delivery_id channel delivery_version (negsuc n)
          ≡ from_raw_fields delivery_id channel delivery_version 0)
      × (from_completed_count_i32_fields delivery_id channel delivery_version (negsuc n)
          ≡ from_raw_fields delivery_id channel delivery_version 0)
      × (from_completed_count_fields delivery_id channel delivery_version n
          ≡ from_raw_fields delivery_id channel delivery_version (n + 1))
unfolding from_completed_count_fields from_raw_fields from_completed_count_i32_fields
    from_raw_i32_fields next_attempt_i32
from_completed_count_fields-from_raw_fields delivery_id channel delivery_version n h =
    let context = context_with delivery_id channel delivery_version in
    (
      ap context (attempt_from_i32-pos n),
      refl,
      ap context (attempt_from_i32-negsuc n),
      ap context (sym zero_attempt),
      ap context (new_attempt-suc n h),
    )
