-- ===== src/IdempotencyKeys/Tests.antt =====
-- Keys at concrete inputs.
use world_infra.Prelude.{◌≡◌, refl, [], ◌∷◌, ok, List}
use world_infra.Text.{
  Text, codes, trim, trim_start, is_control, is_whitespace, is_ascii_alphanumeric,
}
use world_infra.Text.Scan.{join}
use world_infra.Text.Label.{validated}
use world_infra.WorldIdentity.{WorldRef, IncarnationId}
use world_infra.IdempotencyKeys.{
  KeySegment, IdempotencyKey, KeyBuilder, is_none, new_key_segment, from_segments, parse_new_key,
}
use world_infra.IdempotencyKeys.Segments.{IsSegment}
use world_infra.IdempotencyKeys.Keys.{parse_new_key-from_segments}

abbrev segments : List KeySegment
segments = record { value = codes "world" } ∷ record { value = codes "w-1" } ∷ []

abbrev key : IdempotencyKey
key = record { value = codes "world:w-1" }

parse_new_key-from_segments_example : parse_new_key (codes "world:w-1") ≡ ok key
unfolding from_segments is_none join IsSegment new_key_segment validated trim trim_start is_control
    is_whitespace is_ascii_alphanumeric
parse_new_key-from_segments_example =
    parse_new_key-from_segments segments key (refl, (refl, tt)) refl

abbrev as_text : Text → Text
as_text t = t

abbrev left : WorldRef Text (IncarnationId Text)
left = record { world_id = codes "w1"; incarnation = record { id = codes "i2" } }

abbrev right : WorldRef Text (IncarnationId Text)
right = record { world_id = codes " w1"; incarnation = record { id = codes "i2 " } }

abbrev both : KeyBuilder
both = record {
  segments =
      record { value = codes "world" }
      ∷ record { value = codes "w1" }
      ∷ record { value = codes "incarnation" }
      ∷ record { value = codes "i2" }
      ∷ [];
}
