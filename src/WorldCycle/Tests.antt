-- ===== src/WorldCycle/Tests.antt =====
-- Statuses, leases and delays at concrete inputs.
use world_infra.Prelude.{◌≡◌, ◌↔◌, refl, true, some, ok}
use world_infra.Prelude.Int.{pos}
use world_infra.Text.{
  Text, codes, trim, trim_start, is_control, is_whitespace, is_ascii_alphanumeric,
}
use world_infra.WorldCycle.Errors.{WorkerId, new_worker_id}
use world_infra.WorldCycle.{LeaseState, claimable_by, is_active_for}
use world_infra.WorldCycle.Leases.{claimable_by_iff}

abbrev done : Text
done = codes " completed "

abbrev worker : WorkerId
worker = record { value = codes "worker-1" }

abbrev lease : LeaseState
lease = record { owner_id = some (codes "worker-1"); expires_at = some (pos 100) }

claimable_by_iff_example :
    (claimable_by lease (codes "worker-2") (pos 99) ≡ true)
    ↔ ((other : Text) → is_active_for lease other (pos 99) ≡ true → other ≡ codes "worker-2")
claimable_by_iff_example = claimable_by_iff lease (codes "worker-2") (pos 99)

worker_id_test : new_worker_id (codes " worker-1 ") ≡ ok worker
unfolding new_worker_id trim trim_start is_control is_whitespace is_ascii_alphanumeric
worker_id_test = refl
