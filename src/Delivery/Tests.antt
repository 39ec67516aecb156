-- ===== src/Delivery/Tests.antt =====
-- Delays and reports at concrete inputs.
use world_infra.Prelude.{◌≡◌, refl, err}
use world_infra.Text.{codes, trim, trim_start, is_control, is_whitespace}
use world_infra.Delivery.{invalid_lease_token, new_lease_token}

lease_token_test : new_lease_token (codes "lease 7") ≡ err invalid_lease_token
unfolding new_lease_token trim trim_start is_control is_whitespace
lease_token_test = refl
