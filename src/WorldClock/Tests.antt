-- ===== src/WorldClock/Tests.antt =====
-- A cadence at a concrete time.
use world_infra.Prelude.{◌≡◌, refl, err}
use world_infra.WorldClock.{next, zero_cadence, new_cadence}

next_test : next (record { value = 6 }) ≡ record { value = 7 }
unfolding next
next_test = refl

zero_cadence_test : new_cadence 0 ≡ err zero_cadence
unfolding new_cadence
zero_cadence_test = refl
