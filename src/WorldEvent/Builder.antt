-- ===== src/WorldEvent/Builder.antt =====
-- What the metadata of an event are made of, from the calls on its builder in crates/world-event-core/src/lib.rs.
use world_infra.Prelude.{
  ℕ, ◌≡◌, refl, ap, subst, Option, none, some, List, [], ◌∷◌, ◌∙◌, ok, ok_or, bind-ok, ok_or-ok,
  sym, ok_injective,
}
use world_infra.Text.{Text, codes}
use world_infra.WorldIdentity.{WorldRef}
use world_infra.IdempotencyKeys.{IdempotencyKey}
use world_infra.WorldEvent.{
  missing_required, EventId, new_event_id, EventType, new_event_type, AggregateId, CorrelationId,
  EventSource, new_event_source, SchemaVersion, new_schema_version, EventMetadata,
  EventMetadataBuilder, new_event_builder, set_produced_at, set_durability, aggregate_id_value,
  idempotency_key_value, causation_id_value, correlation_id_value, DurabilityBoundary, build_event,
}

-- The optional parts of a builder.
abbrev Options : Type 0
Options =
    Option AggregateId
    × Option IdempotencyKey
    × Option ℕ
    × Option EventId
    × Option CorrelationId
    × Option DurabilityBoundary

-- The optional parts of a builder as calls that set them.
pub data Setting : Type 0 where
  aggregate_of : AggregateId → Setting
  key_of : IdempotencyKey → Setting
  produced : ℕ → Setting
  cause_of : EventId → Setting
  correlation_of : CorrelationId → Setting
  durable : DurabilityBoundary → Setting

abbrev pub as_aggregate : Setting → Option AggregateId
as_aggregate (aggregate_of value) = some value
as_aggregate _ = none

abbrev pub as_key : Setting → Option IdempotencyKey
as_key (key_of value) = some value
as_key _ = none

abbrev pub as_produced : Setting → Option ℕ
as_produced (produced at) = some at
as_produced _ = none

abbrev pub as_cause : Setting → Option EventId
as_cause (cause_of value) = some value
as_cause _ = none

abbrev pub as_correlation : Setting → Option CorrelationId
as_correlation (correlation_of value) = some value
as_correlation _ = none

abbrev pub as_durability : Setting → Option DurabilityBoundary
as_durability (durable value) = some value
as_durability _ = none

abbrev pub otherwise {ℓ} : {A : Type ℓ} → Option A → Option A → Option A
otherwise none o = o
otherwise (some a) o = some a

-- The last part of a kind among some calls.
unfoldable pub last_of {ℓ} : {A : Type ℓ} → (Setting → Option A) → List Setting → Option A
last_of as_part [] = none
last_of as_part (setting ∷ settings) = otherwise (last_of as_part settings) (as_part setting)

abbrev pub last_options : List Setting → Options
last_options settings = (
  last_of as_aggregate settings,
  last_of as_key settings,
  last_of as_produced settings,
  last_of as_cause settings,
  last_of as_correlation settings,
  last_of as_durability settings,
)

otherwise_assoc {ℓ} :
    {A : Type ℓ} (o p q : Option A) → otherwise o (otherwise p q) ≡ otherwise (otherwise o p) q
otherwise_assoc none p q = refl
otherwise_assoc (some a) p q = refl

otherwise-none {ℓ} : {A : Type ℓ} (o : Option A) → otherwise o none ≡ o
otherwise-none none = refl
otherwise-none (some a) = refl

abbrev options_of : Setting → Options
options_of setting = (
  as_aggregate setting,
  as_key setting,
  as_produced setting,
  as_cause setting,
  as_correlation setting,
  as_durability setting,
)

-- The options of one builder, and those of another one where the first has none.
abbrev overlay : Options → Options → Options
overlay (a, k, p, c, r, d) (a', k', p', c', r', d') =
    (otherwise a a', otherwise k k', otherwise p p', otherwise c c', otherwise r r', otherwise d d')

overlay_assoc : (o p q : Options) → overlay o (overlay p q) ≡ overlay (overlay o p) q
overlay_assoc (a, k, p, c, r, d) (a', k', p', c', r', d') (a'', k'', p'', c'', r'', d'') = cc (
  otherwise_assoc a a' a'',
  otherwise_assoc k k' k'',
  otherwise_assoc p p' p'',
  otherwise_assoc c c' c'',
  otherwise_assoc r r' r'',
  otherwise_assoc d d' d'',
)

overlay-none : (o : Options) → overlay o (none, none, none, none, none, none) ≡ o
overlay-none (a, k, p, c, r, d) = cc (
  otherwise-none a,
  otherwise-none k,
  otherwise-none p,
  otherwise-none c,
  otherwise-none r,
  otherwise-none d,
)

module _ {ℓ κ} {W : Type ℓ} {I : Type κ} where
  -- The parts that a builder starts with.
  abbrev required :
      EventMetadataBuilder W I → EventId × EventType × SchemaVersion × WorldRef W I × EventSource
  required b = (b.event_id, b.event_type, b.schema_version, b.world, b.source)

  abbrev options : EventMetadataBuilder W I → Options
  options b = (
    b.aggregate_id, b.idempotency_key, b.produced_at, b.causation_id, b.correlation_id,
    b.durability,
  )

  -- A call that sets an optional part of a builder, and a list of them from the first to the last.
  unfoldable pub set_part : EventMetadataBuilder W I → Setting → EventMetadataBuilder W I
  set_part b (aggregate_of value) = aggregate_id_value b value
  set_part b (key_of value) = idempotency_key_value b value
  set_part b (produced at) = set_produced_at b at
  set_part b (cause_of value) = causation_id_value b value
  set_part b (correlation_of value) = correlation_id_value b value
  set_part b (durable value) = set_durability b value

  unfoldable pub set_parts : EventMetadataBuilder W I → List Setting → EventMetadataBuilder W I
  set_parts b [] = b
  set_parts b (setting ∷ settings) = set_parts (set_part b setting) settings

  -- A call sets its own part and keeps the others.
  set_part_lem :
      (b : EventMetadataBuilder W I) (setting : Setting)
      → (options (set_part b setting) ≡ overlay (options_of setting) (options b))
        × (required (set_part b setting) ≡ required b)
  unfolding set_part aggregate_id_value idempotency_key_value set_produced_at causation_id_value
      correlation_id_value set_durability
  set_part_lem b (aggregate_of value) = (refl, refl)
  set_part_lem b (key_of value) = (refl, refl)
  set_part_lem b (produced at) = (refl, refl)
  set_part_lem b (cause_of value) = (refl, refl)
  set_part_lem b (correlation_of value) = (refl, refl)
  set_part_lem b (durable value) = (refl, refl)

  -- After some calls a part is the last one that was set, or else what it was.
  set_parts-options :
      (b : EventMetadataBuilder W I) (settings : List Setting)
      → options (set_parts b settings) ≡ overlay (last_options settings) (options b)
  unfolding set_parts last_of
  set_parts-options b [] = refl
  set_parts-options b (setting ∷ settings) =
      set_parts-options (set_part b setting) settings
      ∙ ap (overlay (last_options settings)) (set_part_lem b setting).0
      ∙ overlay_assoc (last_options settings) (options_of setting) (options b)

  set_parts-required :
      (b : EventMetadataBuilder W I) (settings : List Setting)
      → required (set_parts b settings) ≡ required b
  unfolding set_parts
  set_parts-required b [] = refl
  set_parts-required b (setting ∷ settings) =
      set_parts-required (set_part b setting) settings ∙ (set_part_lem b setting).1

  -- A builder that has just been made: its required parts, and none of the others.
  abbrev Started : WorldRef W I → Text → Text → ℕ → Text → EventMetadataBuilder W I → Type (ℓ ⊔ κ)
  Started world event_id event_type version source b =
      (new_event_id event_id ≡ ok b.event_id)
      × (new_event_type event_type ≡ ok b.event_type)
      × (new_schema_version version ≡ ok b.schema_version)
      × (new_event_source source ≡ ok b.source)
      × (b.world ≡ world)
      × (options b ≡ (none, none, none, none, none, none))

  new_event_builder-Started :
      (world : WorldRef W I) (event_id event_type : Text) (version : ℕ) (source : Text)
      (b : EventMetadataBuilder W I)
      → new_event_builder world event_id event_type version source ≡ ok b
      → Started world event_id event_type version source b
  unfolding new_event_builder
  new_event_builder-Started world event_id event_type version source b h =
      let (id, e1, h1) = bind-ok (new_event_id event_id) _ b h in
      let (ty, e2, h2) = bind-ok (new_event_type event_type) _ b h1 in
      let (v, e3, h3) = bind-ok (new_schema_version version) _ b h2 in
      let (src, e4, h4) = bind-ok (new_event_source source) _ b h3 in
      subst (Started world event_id event_type version source) (ok_injective _ b _ refl h4)
        (e1, e2, e3, e4, refl, refl)

  -- The metadata have the parts of the builder.
  abbrev Built : EventMetadataBuilder W I → EventMetadata W I → Type (ℓ ⊔ κ)
  Built b m =
      (required b ≡ (m.event_id, m.event_type, m.schema_version, m.world, m.source))
      × (options b ≡ (
        m.aggregate_id,
        m.idempotency_key,
        some m.produced_at,
        m.causation_id,
        m.correlation_id,
        some m.durability,
      ))

  build_event-Built :
      (b : EventMetadataBuilder W I) (m : EventMetadata W I) → build_event b ≡ ok m → Built b m
  unfolding build_event
  build_event-Built b m h =
      let (at, e1, h1) =
        bind-ok (ok_or b.produced_at (missing_required (codes "produced_at"))) _ m h in
      let (d, e2, h2) =
        bind-ok (ok_or b.durability (missing_required (codes "durability"))) _ m h1 in
      let at_given = ok_or-ok b.produced_at _ at e1 in
      let durability_given = ok_or-ok b.durability _ d e2 in
      subst (Built b) (ok_injective _ m _ refl h2) (
        refl,
        ap
              (λ at. (
                b.aggregate_id, b.idempotency_key, at, b.causation_id, b.correlation_id,
                b.durability,
              ))
              at_given
            ∙ ap
                (λ d.
                  (b.aggregate_id, b.idempotency_key, some at, b.causation_id, b.correlation_id, d))
                durability_given,
      )

  -- Metadata from a builder on which optional parts were set in any order, and any number of times, have
  -- the required parts that the builder was made with, each as its constructor makes it, the last value
  -- that was set of each optional part, and the last time and durability that were set.
  pub build_event-last_options :
      (world : WorldRef W I) (event_id event_type : Text) (version : ℕ) (source : Text)
      (b : EventMetadataBuilder W I) (settings : List Setting) (m : EventMetadata W I)
      → new_event_builder world event_id event_type version source ≡ ok b
      → build_event (set_parts b settings) ≡ ok m
      → (new_event_id event_id ≡ ok m.event_id)
        × (new_event_type event_type ≡ ok m.event_type)
        × (new_schema_version version ≡ ok m.schema_version)
        × (new_event_source source ≡ ok m.source)
        × (m.world ≡ world)
        × (last_options settings ≡ (
          m.aggregate_id,
          m.idempotency_key,
          some m.produced_at,
          m.causation_id,
          m.correlation_id,
          some m.durability,
        ))
  build_event-last_options world event_id event_type version source b settings m h k =
      let (id, ty, v, src, at, none_set) =
        new_event_builder-Started world event_id event_type version source b h in
      let (kept, set) = build_event-Built (set_parts b settings) m k in
      let same = sym (set_parts-required b settings) ∙ kept in
      (
        id ∙ ap (λ r. ok r.0) same,
        ty ∙ ap (λ r. ok r.1) same,
        v ∙ ap (λ r. ok r.2) same,
        src ∙ ap (λ r. ok r.4) same,
        sym (ap (λ r. r.3) same) ∙ at,
        sym (
              set_parts-options b settings
              ∙ ap (overlay (last_options settings)) none_set
              ∙ overlay-none (last_options settings))
            ∙ set,
      )
