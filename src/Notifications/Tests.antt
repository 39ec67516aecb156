-- ===== src/Notifications/Tests.antt =====
-- A recurrence at a concrete item.
use world_infra.Prelude.{ℕ, ◌≡◌, refl, true, false, some, ok, err, arith}
use world_infra.Prelude.Int.{pos, negsuc}
use world_infra.Text.{codes, is_control, trim, trim_start, is_whitespace}
use world_infra.Notifications.Channels.{
  new_failure_code, from_raw_fields, from_raw_i32_fields, from_completed_count_fields,
  from_completed_count_i32_fields,
}
use world_infra.Notifications.Outcomes.{ProviderFailure, permanent_failure_of, with_code}
use world_infra.Notifications.Contexts.{from_completed_count_fields-from_raw_fields}
use world_infra.Notifications.{DeliveryVersion, new_version, invalid_delivery_version}
use world_infra.Notifications.Lifecycle.{from_flags, create_new, recurrence_decision}

version_test : new_version (negsuc 3) ≡ err invalid_delivery_version
unfolding new_version
version_test = refl

abbrev first : DeliveryVersion
first = record { value = 1 }

unkeyed_test :
    recurrence_decision false (some (from_flags true false false false)) first ≡ ok create_new
unfolding recurrence_decision
unkeyed_test = refl

abbrev item : ℕ
item = 7

from_completed_count_fields-from_raw_fields_example :
    (from_raw_i32_fields item (codes " SMTP ") (pos 1) (pos 2)
      ≡ from_raw_fields item (codes " SMTP ") (pos 1) 2)
    × (from_completed_count_i32_fields item (codes " SMTP ") (pos 1) (pos 2)
        ≡ from_completed_count_fields item (codes " SMTP ") (pos 1) 2)
    × (from_raw_i32_fields item (codes " SMTP ") (pos 1) (negsuc 2)
        ≡ from_raw_fields item (codes " SMTP ") (pos 1) 0)
    × (from_completed_count_i32_fields item (codes " SMTP ") (pos 1) (negsuc 2)
        ≡ from_raw_fields item (codes " SMTP ") (pos 1) 0)
    × (from_completed_count_fields item (codes " SMTP ") (pos 1) 2
        ≡ from_raw_fields item (codes " SMTP ") (pos 1) 3)
from_completed_count_fields-from_raw_fields_example =
    from_completed_count_fields-from_raw_fields item (codes " SMTP ") (pos 1) 2 (omega arith)

abbrev coded_failure : ProviderFailure
coded_failure = record permanent_failure_of { code = some (record { value = codes "http_503" }) }

coded : with_code permanent_failure_of (codes " http_503 ") ≡ ok coded_failure
unfolding with_code new_failure_code is_control trim trim_start is_whitespace
coded = refl
