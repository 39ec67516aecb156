-- ===== src/WorldCycle/Runtime.antt =====
-- crates/world-cycle-core/src/lib.rs: the status of a world's cycle and its labels.
use world_infra.Prelude.{Bool, Result, ok, err, if◌then◌else◌}
use world_infra.Text.{Text, codes, text_eq, trim}
use world_infra.WorldCycle.Errors.{WorldCycleError, unknown_status}

pub data CycleRuntimeStatus : Type 0 where
  open_status running finalizing paused attention_required : CycleRuntimeStatus

unfoldable pub as_str : CycleRuntimeStatus → Text
as_str open_status = codes "open"
as_str running = codes "running"
as_str finalizing = codes "finalizing"
as_str paused = codes "paused"
as_str attention_required = codes "attention_required"

-- The `match` of `from_str`, on the trimmed value.
unfoldable pub runtime_of : Text → Result WorldCycleError CycleRuntimeStatus
runtime_of label =
    if text_eq label (codes "open")
    then ok open_status
    else if text_eq label (codes "ready")
    then ok open_status
    else if text_eq label (codes "waiting")
    then ok open_status
    else if text_eq label (codes "running")
    then ok running
    else if text_eq label (codes "simulating")
    then ok running
    else if text_eq label (codes "processing")
    then ok running
    else if text_eq label (codes "finalizing")
    then ok finalizing
    else if text_eq label (codes "paused")
    then ok paused
    else if text_eq label (codes "attention_required")
    then ok attention_required
    else if text_eq label (codes "failed")
    then ok attention_required
    else if text_eq label (codes "stuck")
    then ok attention_required
    else err (unknown_status label)

unfoldable pub from_str : Text → Result WorldCycleError CycleRuntimeStatus
from_str value = runtime_of (trim value)

pub record CycleRuntimeSignals : Type 0 where
  pub attention_required : Bool
  pub paused : Bool
  pub finalizing_active : Bool
  pub run_active : Bool

unfoldable pub derive_cycle_runtime_status : CycleRuntimeSignals → CycleRuntimeStatus
derive_cycle_runtime_status signals =
    if signals.attention_required
    then CycleRuntimeStatus.attention_required
    else if signals.paused
    then CycleRuntimeStatus.paused
    else if signals.finalizing_active
    then finalizing
    else if signals.run_active
    then running
    else open_status
