-- ===== src/Notifications/Lifecycle.antt =====
-- crates/notification-lifecycle-core/src/lib.rs: when an item reopens, and which delivery rows are of
-- the item's version.
use world_infra.Prelude.{
  ℕ, Bool, true, false, not, Option, none, some, Result, ok, ◌>>=◌, ltb, if◌then◌else◌,
}
use world_infra.Notifications.{NotificationError, DeliveryVersion, next_version}

pub data NotificationItemState : Type 0 where
  opened unread read dismissed done expired : NotificationItemState

unfoldable pub from_flags : Bool → Bool → Bool → Bool → NotificationItemState
from_flags is_read is_dismissed is_done is_expired =
    if is_expired
    then expired
    else if is_done
    then done
    else if is_dismissed
    then dismissed
    else if is_read
    then read
    else unread

unfoldable pub should_reopen_on_recurrence : NotificationItemState → Bool
should_reopen_on_recurrence opened = false
should_reopen_on_recurrence unread = false
should_reopen_on_recurrence _ = true

pub record NotificationReopenEffects : Type 0 where
  pub next_delivery_version : DeliveryVersion
  pub clear_read : Bool
  pub clear_dismissed : Bool
  pub clear_done : Bool
  pub clear_expired : Bool
  pub clear_broadcast_state : Bool

unfoldable pub from_next_delivery_version : DeliveryVersion → NotificationReopenEffects
from_next_delivery_version next = record {
  next_delivery_version = next;
  clear_read = true;
  clear_dismissed = true;
  clear_done = true;
  clear_expired = true;
  clear_broadcast_state = true;
}

-- `NotificationReopenEffects::new`
unfoldable pub new_effects : DeliveryVersion → Result NotificationError NotificationReopenEffects
new_effects current = do next ← next_version current; ok (from_next_delivery_version next)

pub data RecurrenceDecision : Type 0 where
  update_open_row : RecurrenceDecision
  reopen : DeliveryVersion → RecurrenceDecision
  create_new : RecurrenceDecision

unfoldable pub reopen_effects : RecurrenceDecision → Option NotificationReopenEffects
reopen_effects (reopen next) = some (from_next_delivery_version next)
reopen_effects _ = none

-- The decision on an item that is there and has a key.
unfoldable pub decide :
    NotificationItemState → DeliveryVersion → Result NotificationError RecurrenceDecision
decide state version =
    if should_reopen_on_recurrence state
    then next_version version >>= (λ next. ok (reopen next))
    else ok update_open_row

unfoldable pub recurrence_decision :
    Bool
    → Option NotificationItemState
    → DeliveryVersion
    → Result NotificationError RecurrenceDecision
recurrence_decision has_dedupe_key none version = ok create_new
recurrence_decision has_dedupe_key (some state) version =
    if not has_dedupe_key then ok create_new else decide state version

pub data DeliveryVersionStatus : Type 0 where
  current stale future : DeliveryVersionStatus

unfoldable pub classify_delivery_version : DeliveryVersion → DeliveryVersion → DeliveryVersionStatus
classify_delivery_version row item =
    if ltb row.value item.value then stale else if ltb item.value row.value then future else current

-- Counts are `u32`.
pub data BroadcastClaimOutcome : Type 0 where
  noop retryable_failure : BroadcastClaimOutcome
  claimed broadcasted : ℕ → BroadcastClaimOutcome

unfoldable pub is_terminal : BroadcastClaimOutcome → Bool
is_terminal (claimed count) = false
is_terminal _ = true
