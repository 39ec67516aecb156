-- ===== src/WorldEvent.antt =====
-- crates/world-event-core/src/lib.rs: validated metadata of events, its builder and envelopes.
mod Builder
mod Tests
use world_infra.Prelude.{
  ℕ, Bool, true, false, ◌&&◌, ◌||◌, Option, none, some, [], ◌∷◌, ◌==◌, Result, ok, err, fail_if,
  map_err, ok_or, ◌>>=◌, ◌>>◌,
}
use world_infra.Text.{Text, codes, is_ascii_alphanumeric}
use world_infra.Text.Label.{validated}
use world_infra.WorldIdentity.{WorldRef}
use world_infra.IdempotencyKeys.{IdempotencyKey, KeyError, parse_new_key}

pub data EventMetadataError : Type 0 where
  empty : Text → EventMetadataError
  too_long : Text → ℕ → ℕ → EventMetadataError
  invalid_character : Text → ℕ → EventMetadataError
  zero_schema_version : EventMetadataError
  missing_required : Text → EventMetadataError
  invalid_idempotency_key : KeyError → EventMetadataError

abbrev pub is_metadata_char : Bool → ℕ → Bool
is_metadata_char allow_colon ch =
    is_ascii_alphanumeric ch
    || ((ch == b'-' || ch == b'_' || ch == b'.') || (allow_colon && ch == b':'))

unfoldable pub validated_metadata : Text → Text → ℕ → Bool → Result EventMetadataError Text
validated_metadata field value max allow_colon =
    validated (invalid_character field) (empty field) (λ len. too_long field len max) max
      (is_metadata_char allow_colon) value

pub record EventId : Type 0 where
  pub value : Text

pub record EventType : Type 0 where
  pub value : Text

pub record AggregateId : Type 0 where
  pub value : Text

pub record EventSource : Type 0 where
  pub value : Text

pub record CorrelationId : Type 0 where
  pub value : Text

unfoldable pub new_event_id : Text → Result EventMetadataError EventId
new_event_id value = do
  value ← validated_metadata (codes "event_id") value 256 true
  ok (record { value = value })

unfoldable pub new_event_type : Text → Result EventMetadataError EventType
new_event_type value = do
  value ← validated_metadata (codes "event_type") value 128 false
  ok (record { value = value })

unfoldable pub new_aggregate_id : Text → Result EventMetadataError AggregateId
new_aggregate_id value = do
  value ← validated_metadata (codes "aggregate_id") value 256 true
  ok (record { value = value })

unfoldable pub new_event_source : Text → Result EventMetadataError EventSource
new_event_source value = do
  value ← validated_metadata (codes "source") value 128 false
  ok (record { value = value })

unfoldable pub new_correlation_id : Text → Result EventMetadataError CorrelationId
new_correlation_id value = do
  value ← validated_metadata (codes "correlation_id") value 256 true
  ok (record { value = value })

pub record SchemaVersion : Type 0 where
  pub version : ℕ

unfoldable pub new_schema_version : ℕ → Result EventMetadataError SchemaVersion
new_schema_version value = do
  fail_if (value == 0) zero_schema_version
  ok (record { version = value })

pub data DurabilityBoundary : Type 0 where
  ephemeral_signal authoritative_state_committed durable_outbox_recorded : DurabilityBoundary
  publish_accepted publish_attempt_ambiguous : DurabilityBoundary

pub record EventMetadata {ℓ κ} (W : Type ℓ) (I : Type κ) : Type (ℓ ⊔ κ) where
  pub event_id : EventId
  pub event_type : EventType
  pub schema_version : SchemaVersion
  pub world : WorldRef W I
  pub aggregate_id : Option AggregateId
  pub idempotency_key : Option IdempotencyKey
  pub produced_at : ℕ
  pub source : EventSource
  pub causation_id : Option EventId
  pub correlation_id : Option CorrelationId
  pub durability : DurabilityBoundary

pub record EventMetadataBuilder {ℓ κ} (W : Type ℓ) (I : Type κ) : Type (ℓ ⊔ κ) where
  pub event_id : EventId
  pub event_type : EventType
  pub schema_version : SchemaVersion
  pub world : WorldRef W I
  pub aggregate_id : Option AggregateId
  pub idempotency_key : Option IdempotencyKey
  pub produced_at : Option ℕ
  pub source : EventSource
  pub causation_id : Option EventId
  pub correlation_id : Option CorrelationId
  pub durability : Option DurabilityBoundary

pub record EventEnvelope {ℓ κ μ} (W : Type ℓ) (I : Type κ) (P : Type μ) : Type (ℓ ⊔ κ ⊔ μ) where
  pub metadata : EventMetadata W I
  pub payload : P

-- The options of a builder.
pub record EventOptions : Type 0 where
  pub aggregate_id : Option AggregateId
  pub idempotency_key : Option IdempotencyKey
  pub produced_at : Option ℕ
  pub causation_id : Option EventId
  pub correlation_id : Option CorrelationId
  pub durability : Option DurabilityBoundary

module _ {ℓ κ} {W : Type ℓ} {I : Type κ} where
  -- The builder with other options.
  abbrev pub with_options : EventMetadataBuilder W I → EventOptions → EventMetadataBuilder W I
  with_options builder options = record {
    event_id = builder.event_id;
    event_type = builder.event_type;
    schema_version = builder.schema_version;
    world = builder.world;
    aggregate_id = options.aggregate_id;
    idempotency_key = options.idempotency_key;
    produced_at = options.produced_at;
    source = builder.source;
    causation_id = options.causation_id;
    correlation_id = options.correlation_id;
    durability = options.durability;
  }

  -- `EventMetadataBuilder::new`
  unfoldable pub new_event_builder :
      WorldRef W I → Text → Text → ℕ → Text → Result EventMetadataError (EventMetadataBuilder W I)
  new_event_builder world event_id event_type schema_version source = do
    event_id ← new_event_id event_id
    event_type ← new_event_type event_type
    schema_version ← new_schema_version schema_version
    source ← new_event_source source
    ok (record {
      event_id = event_id;
      event_type = event_type;
      schema_version = schema_version;
      world = world;
      aggregate_id = none;
      idempotency_key = none;
      produced_at = none;
      source = source;
      causation_id = none;
      correlation_id = none;
      durability = none;
    })

  unfoldable pub aggregate_id_value :
      EventMetadataBuilder W I → AggregateId → EventMetadataBuilder W I
  aggregate_id_value builder value = with_options builder (record {
    aggregate_id = some value;
    idempotency_key = builder.idempotency_key;
    produced_at = builder.produced_at;
    causation_id = builder.causation_id;
    correlation_id = builder.correlation_id;
    durability = builder.durability;
  })

  -- `EventMetadataBuilder::aggregate_id`
  unfoldable pub set_aggregate_id :
      EventMetadataBuilder W I → Text → Result EventMetadataError (EventMetadataBuilder W I)
  set_aggregate_id builder value = do
    value ← new_aggregate_id value
    ok (aggregate_id_value builder value)

  unfoldable pub idempotency_key_value :
      EventMetadataBuilder W I → IdempotencyKey → EventMetadataBuilder W I
  idempotency_key_value builder value = with_options builder (record {
    aggregate_id = builder.aggregate_id;
    idempotency_key = some value;
    produced_at = builder.produced_at;
    causation_id = builder.causation_id;
    correlation_id = builder.correlation_id;
    durability = builder.durability;
  })

  -- `EventMetadataBuilder::idempotency_key`
  unfoldable pub set_idempotency_key :
      EventMetadataBuilder W I → Text → Result EventMetadataError (EventMetadataBuilder W I)
  set_idempotency_key builder value = do
    value ← map_err invalid_idempotency_key (parse_new_key value)
    ok (idempotency_key_value builder value)

  unfoldable pub causation_id_value : EventMetadataBuilder W I → EventId → EventMetadataBuilder W I
  causation_id_value builder value = with_options builder (record {
    aggregate_id = builder.aggregate_id;
    idempotency_key = builder.idempotency_key;
    produced_at = builder.produced_at;
    causation_id = some value;
    correlation_id = builder.correlation_id;
    durability = builder.durability;
  })

  -- `EventMetadataBuilder::causation_id`
  unfoldable pub set_causation_id :
      EventMetadataBuilder W I → Text → Result EventMetadataError (EventMetadataBuilder W I)
  set_causation_id builder value = do
    value ← new_event_id value
    ok (causation_id_value builder value)

  unfoldable pub correlation_id_value :
      EventMetadataBuilder W I → CorrelationId → EventMetadataBuilder W I
  correlation_id_value builder value = with_options builder (record {
    aggregate_id = builder.aggregate_id;
    idempotency_key = builder.idempotency_key;
    produced_at = builder.produced_at;
    causation_id = builder.causation_id;
    correlation_id = some value;
    durability = builder.durability;
  })

  -- `EventMetadataBuilder::correlation_id`
  unfoldable pub set_correlation_id :
      EventMetadataBuilder W I → Text → Result EventMetadataError (EventMetadataBuilder W I)
  set_correlation_id builder value = do
    value ← new_correlation_id value
    ok (correlation_id_value builder value)

  -- `EventMetadataBuilder::produced_at`
  unfoldable pub set_produced_at : EventMetadataBuilder W I → ℕ → EventMetadataBuilder W I
  set_produced_at builder value = with_options builder (record {
    aggregate_id = builder.aggregate_id;
    idempotency_key = builder.idempotency_key;
    produced_at = some value;
    causation_id = builder.causation_id;
    correlation_id = builder.correlation_id;
    durability = builder.durability;
  })

  -- `EventMetadataBuilder::durability`
  unfoldable pub set_durability :
      EventMetadataBuilder W I → DurabilityBoundary → EventMetadataBuilder W I
  set_durability builder value = with_options builder (record {
    aggregate_id = builder.aggregate_id;
    idempotency_key = builder.idempotency_key;
    produced_at = builder.produced_at;
    causation_id = builder.causation_id;
    correlation_id = builder.correlation_id;
    durability = some value;
  })

  -- `EventMetadataBuilder::build`
  unfoldable pub build_event :
      EventMetadataBuilder W I → Result EventMetadataError (EventMetadata W I)
  build_event builder = do
    produced_at ← ok_or builder.produced_at (missing_required (codes "produced_at"))
    durability ← ok_or builder.durability (missing_required (codes "durability"))
    ok (record {
      event_id = builder.event_id;
      event_type = builder.event_type;
      schema_version = builder.schema_version;
      world = builder.world;
      aggregate_id = builder.aggregate_id;
      idempotency_key = builder.idempotency_key;
      produced_at = produced_at;
      source = builder.source;
      causation_id = builder.causation_id;
      correlation_id = builder.correlation_id;
      durability = durability;
    })

  unfoldable pub build_envelope {μ} :
      {P : Type μ} → EventMetadataBuilder W I → P → Result EventMetadataError (EventEnvelope W I P)
  build_envelope builder payload = do
    metadata ← build_event builder
    ok (record { metadata = metadata; payload = payload })
