-- ===== src/WorldClock/Laws.antt =====
-- When a cycle is due.
use world_infra.Prelude.{ℕ, ◌+◌, ◌≤◌, ◌<◌, ◌≡◌, true, false, ok, leb, arith}
use world_infra.Time.Laws.{instant_saturating_add-IsSaturatedSum}
use world_infra.WorldClock.{
  Cadence, new_cadence, system_time_saturating_add, next_due_after, is_due, cutoff_before,
}

-- A cycle of an accepted cadence, whose last due time lies before the end of the scale, is not due
-- at that time, is due exactly from the duration later if that can be represented, and is due at
-- the end of the scale in any case. What ends a duration before the next due time, if that can be
-- represented, ends at the last one.
pub is_due_lem :
    (limit epoch last_due now duration : ℕ) (cadence : Cadence)
    → new_cadence duration ≡ ok cadence
    → last_due < limit
    → (is_due limit cadence last_due last_due ≡ false)
      × (is_due limit cadence last_due limit ≡ true)
      × (last_due + duration ≤ limit
          → (is_due limit cadence last_due now ≡ leb (last_due + duration) now)
            × (cutoff_before epoch (next_due_after limit cadence last_due) duration ≡ last_due))
unfolding new_cadence is_due next_due_after system_time_saturating_add cutoff_before
is_due_lem limit epoch last_due now duration cadence h l =
    ground (arith, instant_saturating_add-IsSaturatedSum limit last_due duration (omega arith))
