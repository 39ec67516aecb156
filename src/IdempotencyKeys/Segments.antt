-- ===== src/IdempotencyKeys/Segments.antt =====
-- The segments that are accepted, one by one and from a list.
use world_infra.Prelude.{
  ◌≡◌, refl, sym, ap, ◌∙◌, subst, false, List, [], ◌∷◌, ◌==◌, any, all_narrow, All, map, ok, ◌>>=◌,
  bind-ok, ok_injective, arith,
}
use world_infra.Text.{Text, trim, is_ascii_alphanumeric}
use world_infra.Text.Label.{validated, IsLabel, validated-IsLabel}
use world_infra.IdempotencyKeys.{
  invalid_character, empty_segment, segment_too_long, max_segment_len, is_segment_char, KeySegment,
  new_key_segment, collect_segments,
}

-- A segment that `KeySegment::new` has made.
unfoldable pub IsSegment : KeySegment → Type 0
IsSegment segment = new_key_segment segment.value ≡ ok segment

label :
    (value : Text) (segment : KeySegment)
    → new_key_segment value ≡ ok segment
    → IsLabel invalid_character empty_segment segment_too_long max_segment_len is_segment_char value
        segment.value
unfolding new_key_segment
label value segment h =
    let (out, valid, made) =
      bind-ok
        (validated invalid_character empty_segment segment_too_long max_segment_len is_segment_char
          value)
        (λ v. ok (record { value = v })) segment h in
    let same : segment.value ≡ out = cc in
    validated-IsLabel invalid_character empty_segment segment_too_long max_segment_len
      is_segment_char value segment.value (valid ∙ ap ok (sym same))

-- What is made is a segment.
pub new_key_segment-IsSegment :
    (value : Text) (segment : KeySegment) → new_key_segment value ≡ ok segment → IsSegment segment
unfolding IsSegment new_key_segment
new_key_segment-IsSegment value segment h = rw (label value segment h).stable refl

pub IsSegment-plain :
    (segment : KeySegment) → IsSegment segment → any (λ c. c == b':') segment.value ≡ false
unfolding IsSegment is_ascii_alphanumeric
IsSegment-plain segment h =
    all_narrow is_segment_char (λ c. c == b':') segment.value (λ c k. ground arith)
      (label segment.value segment h).classed

abbrev pub values : List KeySegment → List Text
values segments = map (λ segment. segment.value) segments

pub collect_segments-values :
    (segments : List KeySegment)
    → All IsSegment segments
    → collect_segments (values segments) ≡ ok segments
unfolding collect_segments IsSegment
collect_segments-values [] h = refl
collect_segments-values (segment ∷ segments) h =
    let (first, rest) = h in rw (first, collect_segments-values segments rest) refl

pub collect_segments-IsSegment :
    (parts : List Text) (segments : List KeySegment)
    → collect_segments parts ≡ ok segments
    → All IsSegment segments
unfolding collect_segments
collect_segments-IsSegment [] segments h =
    subst (All IsSegment) (ok_injective [] segments (ok []) refl h) tt
collect_segments-IsSegment (part ∷ parts) segments h =
    let (segment, made, h1) =
      bind-ok (new_key_segment part) (λ s. collect_segments parts >>= λ ss. ok (s ∷ ss)) segments
        h in
    let (rest, collected, h2) =
      bind-ok (collect_segments parts) (λ ss. ok (segment ∷ ss)) segments h1 in
    subst (All IsSegment) (ok_injective (segment ∷ rest) segments (ok (segment ∷ rest)) refl h2)
      (new_key_segment-IsSegment part segment made, collect_segments-IsSegment parts rest collected)

pub new_key_segment-trim :
    (value : Text) (segment : KeySegment)
    → new_key_segment value ≡ ok segment
    → segment.value ≡ trim value
new_key_segment-trim value segment h = (label value segment h).trimmed

-- No part of the values of segments has a colon.
pub values-plain :
    (segments : List KeySegment)
    → All IsSegment segments
    → any (any (λ c. c == b':')) (values segments) ≡ false
values-plain [] h = refl
values-plain (segment ∷ segments) h =
    let (first, rest) = h in rw (IsSegment-plain segment first) (values-plain segments rest)
