-- ===== src/Time.antt =====
-- `std::time` as the crates use it. A `Duration` is its number of nanoseconds. An `Instant` or a
-- `SystemTime` is a number of nanoseconds on a scale that ends at `limit`, which the platform fixes:
-- `checked_add` answers `None` beyond it.
pub mod Laws
mod Tests
use world_infra.Prelude.{
  ℕ, zero, suc, ◌+◌, ◌/◌, Bool, true, false, Option, none, some, leb, ◌==◌, if◌then◌else◌,
}

abbrev pub nanos_per_sec : ℕ
nanos_per_sec = 1_000_000_000

abbrev pub checked_add : ℕ → ℕ → ℕ → Option ℕ
checked_add limit now duration = if leb (now + duration) limit then some (now + duration) else none

-- The loop of `instant_saturating_add`, which halves the duration until the sum is representable.
saturating_add_loop : ℕ → ℕ → ℕ → ℕ → ℕ
saturating_add_loop zero limit now duration = now
saturating_add_loop (suc fuel) limit now duration = elim (checked_add limit now duration) [
  | some expires_at ↦ expires_at
  | none ↦ elim (duration / 2 == 0) [
    | true ↦ now
    | false ↦ saturating_add_loop fuel limit now (duration / 2)
  ]
]

-- A duration is halved fewer times than it has nanoseconds.
unfoldable pub instant_saturating_add : ℕ → ℕ → ℕ → ℕ
unfolding saturating_add_loop
instant_saturating_add limit now duration = saturating_add_loop (suc duration) limit now duration

unfoldable pub ttl_duration : ℕ → ℕ
ttl_duration ttl = if ttl == 0 then nanos_per_sec else ttl
