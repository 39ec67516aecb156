-- ===== src/Backoff.antt =====
-- The backoff loop that crates/world-cycle-core/src/lib.rs and crates/delivery-core/src/lib.rs both
-- have. A `Duration` is its number of nanoseconds.
pub mod Laws
use world_infra.Prelude.{ℕ, zero, suc, ◌-◌, ◌*◌, ◌^◌, ◌==◌, min, if◌then◌else◌}
use world_infra.Time.{nanos_per_sec}

abbrev pub u64_max : ℕ
u64_max = 2 ^ 64 - 1

-- `Duration::MAX`
abbrev pub duration_max : ℕ
duration_max = 2 ^ 64 * nanos_per_sec - 1

-- `Duration::saturating_mul`
unfoldable pub saturating_mul : ℕ → ℕ → ℕ
saturating_mul duration factor = min (duration * factor) duration_max

-- The loop runs as often as there are attempts, or until the delay stays the same.
unfoldable pub delay_loop : ℕ → ℕ → ℕ → ℕ → ℕ
delay_loop max multiplier zero delay = delay
delay_loop max multiplier (suc attempts) delay =
    let next = min (saturating_mul delay multiplier) max in
    let rest = delay_loop max multiplier attempts next in if next == delay then delay else rest
