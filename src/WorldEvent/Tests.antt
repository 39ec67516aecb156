-- ===== src/WorldEvent/Tests.antt =====
-- A builder at concrete inputs.
use world_infra.Prelude.{ℕ, ◌≡◌, refl, none, some, List, [], ◌∷◌, ok}
use world_infra.Text.{codes, trim, trim_start, is_control, is_whitespace, is_ascii_alphanumeric}
use world_infra.Text.Label.{validated}
use world_infra.WorldIdentity.{WorldRef}
use world_infra.WorldEvent.{
  EventMetadata, EventMetadataBuilder, publish_accepted, validated_metadata, new_event_id,
  new_event_type, new_schema_version, new_event_source, new_event_builder, set_produced_at,
  set_durability, build_event, CorrelationId, correlation_id_value,
}
use world_infra.WorldEvent.Builder.{
  Setting, produced, durable, correlation_of, set_part, set_parts, last_options,
  build_event-last_options,
}

abbrev world : WorldRef ℕ ℕ
world = record { world_id = 1; incarnation = 2 }

abbrev correlation : CorrelationId
correlation = record { value = codes "c" }

abbrev started : EventMetadataBuilder ℕ ℕ
started = record {
  event_id = record { value = codes "e:1" };
  event_type = record { value = codes "moved" };
  schema_version = record { version = 1 };
  world = world;
  aggregate_id = none;
  idempotency_key = none;
  produced_at = none;
  source = record { value = codes "sim" };
  causation_id = none;
  correlation_id = none;
  durability = none;
}

abbrev metadata : EventMetadata ℕ ℕ
metadata = record {
  event_id = record { value = codes "e:1" };
  event_type = record { value = codes "moved" };
  schema_version = record { version = 1 };
  world = world;
  aggregate_id = none;
  idempotency_key = none;
  produced_at = 7;
  source = record { value = codes "sim" };
  causation_id = none;
  correlation_id = some correlation;
  durability = publish_accepted;
}

-- The time is set twice.
abbrev settings : List Setting
settings = produced 5 ∷ durable publish_accepted ∷ produced 7 ∷ correlation_of correlation ∷ []

build_event-last_options_example :
    (new_event_id (codes " e:1") ≡ ok metadata.event_id)
    × (new_event_type (codes "moved") ≡ ok metadata.event_type)
    × (new_schema_version 1 ≡ ok metadata.schema_version)
    × (new_event_source (codes "sim") ≡ ok metadata.source)
    × (world ≡ world)
    × (last_options settings ≡ (none, none, some 7, none, some correlation, some publish_accepted))
unfolding new_event_builder new_event_id new_event_type new_schema_version new_event_source
    validated_metadata validated trim trim_start is_control is_whitespace is_ascii_alphanumeric
    set_produced_at set_durability correlation_id_value build_event set_part set_parts
build_event-last_options_example =
    build_event-last_options world (codes " e:1") (codes "moved") 1 (codes "sim") started settings
      metadata refl refl
