-- ===== src/Notifications/Recurrence.antt =====
-- What a reopened item is.
use world_infra.Prelude.{
  ◌+◌, ◌≤◌, ◌≡◌, Bool, true, not, ◌&&◌, ◌||◌, some, ok, err, ltb, if◌then◌else◌, arith,
}
use world_infra.Notifications.{DeliveryVersion, invalid_delivery_version, i32_max, next_version}
use world_infra.Notifications.Lifecycle.{
  NotificationItemState, from_flags, should_reopen_on_recurrence, NotificationReopenEffects,
  from_next_delivery_version, update_open_row, reopen, decide, recurrence_decision, stale, current,
  classify_delivery_version,
}

-- The state of an item with the given flags after an adapter has applied the effects.
abbrev pub reopened : Bool → Bool → Bool → Bool → NotificationReopenEffects → NotificationItemState
reopened is_read is_dismissed is_done is_expired effects =
    from_flags (is_read && not effects.clear_read) (is_dismissed && not effects.clear_dismissed)
      (is_done && not effects.clear_done) (is_expired && not effects.clear_expired)

-- An item with a key recurs: it reopens exactly if it was read, dismissed, done or has expired, unless
-- its version is the last of i32, which is an error. Once the effects are applied, rows of the old
-- version are stale, rows of the new one current, and the next recurrence updates the open row.
pub recurrence_decision_lem :
    (is_read is_dismissed is_done is_expired : Bool) (version : DeliveryVersion)
    → version.value ≤ i32_max
    → let state = from_flags is_read is_dismissed is_done is_expired in
      let next : DeliveryVersion = record { value = version.value + 1 } in
      let effects = from_next_delivery_version next in
      (recurrence_decision true (some state) version ≡ (
        if is_read || is_dismissed || is_done || is_expired
        then (if ltb version.value i32_max then ok (reopen next) else err invalid_delivery_version)
        else ok update_open_row))
      × (recurrence_decision true
            (some (reopened is_read is_dismissed is_done is_expired effects))
            next
          ≡ ok update_open_row)
      × (classify_delivery_version version next ≡ stale)
      × (classify_delivery_version next next ≡ current)
unfolding recurrence_decision decide from_flags should_reopen_on_recurrence
    from_next_delivery_version classify_delivery_version next_version
recurrence_decision_lem r d n e version b = ground arith
