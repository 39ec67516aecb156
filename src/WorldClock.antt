-- ===== src/WorldClock.antt =====
-- crates/world-clock-core/src/lib.rs: cycles, cadences and cutoffs. A `SystemTime` is a number of
-- nanoseconds on a scale that ends at `limit` and on which `epoch` is the Unix epoch, both of the
-- platform; a `Duration` is its number of nanoseconds.
pub mod Laws
mod Tests
use world_infra.Prelude.{
  ℕ, ◌+◌, ◌-◌, ◌^◌, Bool, Option, none, some, Result, ok, err, leb, ◌==◌, min, if◌then◌else◌,
}
use world_infra.Time.{instant_saturating_add}

abbrev pub u64_max : ℕ
u64_max = 2 ^ 64 - 1

pub record CycleNumber : Type 0 where
  pub value : ℕ

unfoldable pub next : CycleNumber → CycleNumber
next cycle = record { value = min (cycle.value + 1) u64_max }

pub data ClockError : Type 0 where
  zero_cadence : ClockError

pub record Cadence : Type 0 where
  pub duration : ℕ

-- `Cadence::new`
unfoldable pub new_cadence : ℕ → Result ClockError Cadence
new_cadence duration =
    if duration == 0 then err zero_cadence else ok (record { duration = duration })

-- The loop is that of `instant_saturating_add`.
unfoldable pub system_time_saturating_add : ℕ → ℕ → ℕ → ℕ
system_time_saturating_add limit time duration = instant_saturating_add limit time duration

unfoldable pub next_due_after : ℕ → Cadence → ℕ → ℕ
next_due_after limit cadence last_due = system_time_saturating_add limit last_due cadence.duration

unfoldable pub is_due : ℕ → Cadence → ℕ → ℕ → Bool
is_due limit cadence last_due now = leb (next_due_after limit cadence last_due) now

-- `SystemTime::checked_sub`
abbrev pub checked_sub : ℕ → ℕ → Option ℕ
checked_sub time duration = if leb duration time then some (time - duration) else none

unfoldable pub cutoff_before : ℕ → ℕ → ℕ → ℕ
cutoff_before epoch due_at cutoff = elim (checked_sub due_at cutoff) [
  | some time ↦ time
  | none ↦ epoch
]
