-- ===== src/Time/Laws.antt =====
-- What `instant_saturating_add` promises.
use world_infra.Prelude.{ℕ, zero, suc, ◌+◌, ◌*◌, ◌/◌, ◌≤◌, ◌<◌, ◌≡◌, arith}
use world_infra.Time.{saturating_add_loop, instant_saturating_add, ttl_duration}

-- The expiry `t` that stands for `now + duration` on a scale that ends at `limit`.
pub record IsSaturatedSum (limit now duration t : ℕ) : Type 0 where
  pub from_now : now ≤ t
  pub not_later : t ≤ now + duration
  pub within : t ≤ limit
  pub exact : now + duration ≤ limit → t ≡ now + duration
  pub at_least_half : limit < now + duration → limit + now ≤ 2 * t
  pub later : now < limit → 0 < duration → now < t

saturating_add_loop_lem :
    (fuel limit now duration : ℕ)
    → now ≤ limit
    → duration < fuel
    → IsSaturatedSum limit now duration (saturating_add_loop fuel limit now duration)
unfolding saturating_add_loop
saturating_add_loop_lem zero limit now duration h f = elim f [ ]
saturating_add_loop_lem (suc fuel) limit now duration h f =
    ground (arith, saturating_add_loop_lem fuel limit now (duration / 2))

-- For a time on the scale: the sum where it is representable; otherwise a time no later than the
-- end of the scale and at least half way to it; and later than `now` if there is any room and the
-- duration is not zero.
pub instant_saturating_add-IsSaturatedSum :
    (limit now duration : ℕ)
    → now ≤ limit
    → IsSaturatedSum limit now duration (instant_saturating_add limit now duration)
unfolding instant_saturating_add
instant_saturating_add-IsSaturatedSum limit now duration h =
    saturating_add_loop_lem (suc duration) limit now duration h (omega arith)

pub ttl_duration-pos : (ttl : ℕ) → 0 < ttl_duration ttl
unfolding ttl_duration
ttl_duration-pos ttl = ground arith
