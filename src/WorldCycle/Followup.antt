-- ===== src/WorldCycle/Followup.antt =====
-- crates/world-cycle-core/src/lib.rs: the status of a follow-up retry and its labels.
use world_infra.Prelude.{Bool, true, false, not, Result, ok, err, if◌then◌else◌}
use world_infra.Text.{Text, codes, text_eq, trim}
use world_infra.WorldCycle.Errors.{WorldCycleError, unknown_status}

pub data FollowupRetryStatus : Type 0 where
  pending running complete exhausted : FollowupRetryStatus

unfoldable pub as_str : FollowupRetryStatus → Text
as_str pending = codes "pending"
as_str running = codes "running"
as_str complete = codes "complete"
as_str exhausted = codes "exhausted"

unfoldable pub is_terminal : FollowupRetryStatus → Bool
is_terminal complete = true
is_terminal exhausted = true
is_terminal _ = false

unfoldable pub should_delay_retry : FollowupRetryStatus → Bool
should_delay_retry pending = true
should_delay_retry _ = false

unfoldable pub allows_lease : FollowupRetryStatus → Bool
allows_lease status = not (is_terminal status)

-- The `match` of `from_str`, on the trimmed value.
unfoldable pub followup_of : Text → Result WorldCycleError FollowupRetryStatus
followup_of label =
    if text_eq label (codes "pending")
    then ok pending
    else if text_eq label (codes "running")
    then ok running
    else if text_eq label (codes "complete")
    then ok complete
    else if text_eq label (codes "completed")
    then ok complete
    else if text_eq label (codes "exhausted")
    then ok exhausted
    else err (unknown_status label)

unfoldable pub from_str : Text → Result WorldCycleError FollowupRetryStatus
from_str value = followup_of (trim value)
