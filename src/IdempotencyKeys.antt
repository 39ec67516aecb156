-- ===== src/IdempotencyKeys.antt =====
-- crates/idempotency-core/src/lib.rs: segments of idempotency keys, keys, their parser and their builder.
pub mod Segments
pub mod Keys
mod Tests
use world_infra.Prelude.{
  ℕ, Bool, true, false, ◌||◌, List, [], ◌∷◌, ◌++◌, ◌==◌, map, Result, ok, err, fail_if, ◌>>=◌, ◌>>◌,
}
use world_infra.Text.{Text, codes, is_ascii_alphanumeric}
use world_infra.Text.Scan.{split, join}
use world_infra.Text.Label.{validated}
use world_infra.WorldIdentity.{WorldRef, NoIncarnation, IncarnationId}

abbrev pub max_segment_len : ℕ
max_segment_len = 128

pub data KeyError : Type 0 where
  empty_segment : KeyError
  segment_too_long : ℕ → KeyError
  invalid_character : ℕ → KeyError
  empty_key : KeyError

pub record KeySegment : Type 0 where
  pub value : Text

abbrev pub is_segment_char : ℕ → Bool
is_segment_char ch = is_ascii_alphanumeric ch || (ch == b'-' || ch == b'_' || ch == b'.')

-- `KeySegment::new`
unfoldable pub new_key_segment : Text → Result KeyError KeySegment
new_key_segment value = do
  value ←
      validated invalid_character empty_segment segment_too_long max_segment_len is_segment_char
        value
  ok (record { value = value })

pub record IdempotencyKey : Type 0 where
  pub value : Text

unfoldable pub is_none : List Text → Bool
is_none [] = true
is_none (value ∷ values) = false

unfoldable pub from_segments : List KeySegment → Result KeyError IdempotencyKey
from_segments segments = do
  let values = map (λ segment. segment.value) segments
  fail_if (is_none values) empty_key
  ok (record { value = join b':' values })

-- `map(KeySegment::new).collect()`, which stops at the first error.
unfoldable pub collect_segments : List Text → Result KeyError (List KeySegment)
collect_segments [] = ok []
collect_segments (part ∷ parts) = do
  segment ← new_key_segment part
  segments ← collect_segments parts
  ok (segment ∷ segments)

unfoldable pub parse_new_key : Text → Result KeyError IdempotencyKey
parse_new_key value = do segments ← collect_segments (split b':' value); from_segments segments

pub record KeyBuilder : Type 0 where
  pub segments : List KeySegment

-- `KeyBuilder::new`
abbrev pub new_key_builder : KeyBuilder
new_key_builder = record { segments = [] }

unfoldable pub push : KeyBuilder → Text → Result KeyError KeyBuilder
push builder segment = do
  segment ← new_key_segment segment
  ok (record { segments = builder.segments ++ segment ∷ [] })

module _ {ℓ} {W : Type ℓ} (display : W → Text) where
  -- `KeyBuilder::world`
  unfoldable pub push_world : KeyBuilder → WorldRef W NoIncarnation → Result KeyError KeyBuilder
  push_world builder world = do
    builder ← push builder (codes "world")
    push builder (display world.world_id)

module _ {ℓ κ} {W : Type ℓ} {I : Type κ} (display : W → Text) (display_incarnation : I → Text) where
  -- `KeyBuilder::incarnated_world`
  unfoldable pub push_incarnated_world :
      KeyBuilder → WorldRef W (IncarnationId I) → Result KeyError KeyBuilder
  push_incarnated_world builder world = do
    builder ← push builder (codes "world")
    builder ← push builder (display world.world_id)
    builder ← push builder (codes "incarnation")
    push builder (display_incarnation world.incarnation.id)

-- `KeyBuilder::build`
unfoldable pub build_key : KeyBuilder → Result KeyError IdempotencyKey
build_key builder = from_segments builder.segments
