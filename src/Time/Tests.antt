-- ===== src/Time/Tests.antt =====
-- Expiries near the end of the scale.
use world_infra.Prelude.{◌≡◌, refl}
use world_infra.Time.{saturating_add_loop, instant_saturating_add}

halved_test : instant_saturating_add 100 40 200 ≡ 90
unfolding instant_saturating_add saturating_add_loop
halved_test = refl
