-- ===== src/Notifications.antt =====
-- crates/notification-core/src/lib.rs: the version of a delivery. An `i32` is an integer.
pub mod Lifecycle
pub mod Recurrence
pub mod Channels
pub mod Outcomes
mod Contexts
mod FailureReports
mod Tests
use world_infra.Prelude.{ℕ, ◌+◌, ◌-◌, ◌^◌, Result, ok, err, ltb, ◌==◌, if◌then◌else◌}
use world_infra.Prelude.Int.{ℤ, pos, negsuc}
use world_infra.Text.{Text}

abbrev pub i32_max : ℕ
i32_max = 2 ^ 31 - 1

pub data NotificationError : Type 0 where
  empty : Text → NotificationError
  too_long : Text → ℕ → ℕ → NotificationError
  invalid_character : Text → ℕ → NotificationError
  unknown_channel : Text → NotificationError
  invalid_delivery_version invalid_attempt : NotificationError

-- A positive `i32`.
pub record DeliveryVersion : Type 0 where
  pub value : ℕ

-- `DeliveryVersion::new`
unfoldable pub new_version : ℤ → Result NotificationError DeliveryVersion
new_version (pos value) =
    if value == 0 then err invalid_delivery_version else ok (record { value = value })
new_version (negsuc n) = err invalid_delivery_version

-- `DeliveryVersion::next`, with `i32::checked_add`.
unfoldable pub next_version : DeliveryVersion → Result NotificationError DeliveryVersion
unfolding new_version
next_version version =
    if ltb i32_max (version.value + 1)
    then err invalid_delivery_version
    else new_version (pos (version.value + 1))
