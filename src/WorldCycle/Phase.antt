-- ===== src/WorldCycle/Phase.antt =====
-- crates/world-cycle-core/src/lib.rs: the status of a phase, its labels, and what a claim of it may answer.
use world_infra.Prelude.{Bool, true, false, Option, some, Result, ok, err, if◌then◌else◌}
use world_infra.Text.{Text, codes, text_eq, trim}
use world_infra.WorldCycle.Errors.{WorldCycleError, unknown_status}

pub data CyclePhaseStatus : Type 0 where
  pending running applied complete failed : CyclePhaseStatus

unfoldable pub as_str : CyclePhaseStatus → Text
as_str pending = codes "pending"
as_str running = codes "running"
as_str applied = codes "applied"
as_str complete = codes "complete"
as_str failed = codes "failed"

unfoldable pub is_terminal : CyclePhaseStatus → Bool
is_terminal complete = true
is_terminal _ = false

-- The `match` of `from_str`, on the trimmed value.
unfoldable pub phase_of : Text → Result WorldCycleError CyclePhaseStatus
phase_of label =
    if text_eq label (codes "pending")
    then ok pending
    else if text_eq label (codes "running")
    then ok running
    else if text_eq label (codes "applied")
    then ok applied
    else if text_eq label (codes "complete")
    then ok complete
    else if text_eq label (codes "completed")
    then ok complete
    else if text_eq label (codes "failed")
    then ok failed
    else err (unknown_status label)

unfoldable pub from_str : Text → Result WorldCycleError CyclePhaseStatus
from_str value = phase_of (trim value)

pub data CyclePhaseClaim : Type 0 where
  claimed applied complete busy : CyclePhaseClaim

unfoldable pub from_existing_status : Option CyclePhaseStatus → CyclePhaseClaim
from_existing_status (some CyclePhaseStatus.applied) = CyclePhaseClaim.applied
from_existing_status (some CyclePhaseStatus.complete) = CyclePhaseClaim.complete
from_existing_status _ = busy
