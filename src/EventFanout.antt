-- ===== src/EventFanout.antt =====
-- crates/event-fanout/src/lib.rs: validated parts of topics, sources, failures with bounded messages and
-- the outcomes of a publish.
mod Messages
mod Tests
use world_infra.Prelude.{
  ℕ, ◌+◌, Bool, true, false, ◌||◌, Option, none, some, List, [], ◌∷◌, leb, ltb, ◌==◌, Result, ok,
  err, ◌>>=◌, if◌then◌else◌,
}
use world_infra.Text.{Text, codes, byte_length, utf8_width, is_ascii_alphanumeric}
use world_infra.Text.Label.{validated}

abbrev pub max_topic_len : ℕ
max_topic_len = 256

abbrev pub max_node_id_len : ℕ
max_node_id_len = 128

abbrev pub max_stable_id_len : ℕ
max_stable_id_len = 256

abbrev pub max_failure_message_len : ℕ
max_failure_message_len = 1024

pub data FanoutMetadataError : Type 0 where
  empty : Text → FanoutMetadataError
  too_long : Text → ℕ → ℕ → FanoutMetadataError
  invalid_character : Text → ℕ → FanoutMetadataError

abbrev pub is_key_char : ℕ → Bool
is_key_char ch =
    is_ascii_alphanumeric ch || (ch == b'-' || ch == b'_' || ch == b'.' || ch == b':' || ch == b'/')

unfoldable pub validated_key_part : Text → Text → ℕ → Result FanoutMetadataError Text
validated_key_part field value max =
    validated (invalid_character field) (empty field) (λ len. too_long field len max) max
      is_key_char value

pub record FanoutTopic : Type 0 where
  pub value : Text

pub record FanoutNodeId : Type 0 where
  pub value : Text

pub record FanoutStableId : Type 0 where
  pub value : Text

unfoldable pub new_fanout_topic : Text → Result FanoutMetadataError FanoutTopic
new_fanout_topic value = do
  value ← validated_key_part (codes "topic") value max_topic_len
  ok (record { value = value })

unfoldable pub new_fanout_node_id : Text → Result FanoutMetadataError FanoutNodeId
new_fanout_node_id value = do
  value ← validated_key_part (codes "node_id") value max_node_id_len
  ok (record { value = value })

unfoldable pub new_fanout_stable_id : Text → Result FanoutMetadataError FanoutStableId
new_fanout_stable_id value = do
  value ← validated_key_part (codes "stable_id") value max_stable_id_len
  ok (record { value = value })

pub data FanoutSource : Type 0 where
  local : FanoutSource
  self_originated remote : FanoutNodeId → FanoutSource
  replay : FanoutSource

unfoldable pub is_replay : FanoutSource → Bool
is_replay replay = true
is_replay _ = false

pub data FanoutFailureKind : Type 0 where
  clear_failure ambiguous_after_attempt : FanoutFailureKind

unfoldable pub kind_requires_boundary_ambiguity : FanoutFailureKind → Bool
kind_requires_boundary_ambiguity clear_failure = false
kind_requires_boundary_ambiguity ambiguous_after_attempt = true

-- `str::char_indices`: the byte at which each character starts, from `index` on.
unfoldable pub char_indices : ℕ → Text → List ℕ
char_indices index [] = []
char_indices index (c ∷ s) = index ∷ char_indices (index + utf8_width c) s

unfoldable pub take_while : (ℕ → Bool) → List ℕ → List ℕ
take_while p [] = []
take_while p (x ∷ xs) = if p x then x ∷ take_while p xs else []

-- `last().unwrap_or(…)`
unfoldable pub last_or : ℕ → List ℕ → ℕ
last_or default [] = default
last_or default (x ∷ xs) = last_or x xs

-- `String::truncate` at a byte; past the end it does nothing, and it is not called inside a character.
unfoldable pub truncate : ℕ → ℕ → Text → Text
truncate at index [] = []
truncate at index (c ∷ s) = if leb at index then [] else c ∷ truncate at (index + utf8_width c) s

pub record FanoutFailure : Type 0 where
  pub kind : FanoutFailureKind
  pub message : Text

-- `FanoutFailure::new`
unfoldable pub new_fanout_failure : FanoutFailureKind → Text → FanoutFailure
new_fanout_failure kind message =
    let truncate_at =
      last_or 0
        (take_while (λ index. leb index max_failure_message_len) (char_indices 0 message)) in
    record {
      kind = kind;
      message =
          if ltb max_failure_message_len (byte_length message)
          then truncate truncate_at 0 message
          else message;
    }

-- `FanoutFailure::clear`
unfoldable pub clear : Text → FanoutFailure
clear message = new_fanout_failure clear_failure message

-- `FanoutFailure::ambiguous_after_attempt`
unfoldable pub ambiguous_failure : Text → FanoutFailure
ambiguous_failure message = new_fanout_failure ambiguous_after_attempt message

unfoldable pub failure_requires_boundary_ambiguity : FanoutFailure → Bool
failure_requires_boundary_ambiguity failure = kind_requires_boundary_ambiguity failure.kind

-- The count of subscribers in `published` is not zero.
pub data PublishOutcome : Type 0 where
  published : Option ℕ → PublishOutcome
  no_subscribers : PublishOutcome
  publish_ambiguous : FanoutFailure → PublishOutcome

unfoldable pub published_to : ℕ → PublishOutcome
published_to subscribers = if subscribers == 0 then no_subscribers else published (some subscribers)

-- `PublishOutcome::ambiguous_after_attempt`
unfoldable pub ambiguous_outcome : Text → PublishOutcome
ambiguous_outcome message = publish_ambiguous (ambiguous_failure message)

unfoldable pub is_published : PublishOutcome → Bool
is_published (published subscribers) = true
is_published _ = false

unfoldable pub is_no_subscribers : PublishOutcome → Bool
is_no_subscribers no_subscribers = true
is_no_subscribers _ = false

unfoldable pub requires_boundary_ambiguity : PublishOutcome → Bool
requires_boundary_ambiguity (publish_ambiguous failure) = true
requires_boundary_ambiguity _ = false

unfoldable pub local_broadcast_outcome {ℓ} : {E : Type ℓ} → Result E ℕ → PublishOutcome
local_broadcast_outcome (ok subscribers) = published_to subscribers
local_broadcast_outcome (err error) = no_subscribers
