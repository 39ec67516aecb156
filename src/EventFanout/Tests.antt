-- ===== src/EventFanout/Tests.antt =====
-- Failures at a concrete message.
use world_infra.Prelude.{◌≡◌, ◌⊎◌, ◌≤◌, ◌<◌}
use world_infra.Text.{Text, codes, byte_length}
use world_infra.EventFanout.{new_fanout_failure, clear_failure}
use world_infra.EventFanout.Messages.{IsCut, new_fanout_failure-IsCut}

abbrev refused : Text
refused = codes "connection refused"

new_fanout_failure-IsCut_example :
    (byte_length refused ≤ 1024) × ((new_fanout_failure clear_failure refused).message ≡ refused)
    ⊎ (1024 < byte_length refused)
      × IsCut 1024 0 refused (new_fanout_failure clear_failure refused).message
new_fanout_failure-IsCut_example = new_fanout_failure-IsCut clear_failure refused
