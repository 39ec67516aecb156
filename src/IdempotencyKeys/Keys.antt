-- ===== src/IdempotencyKeys/Keys.antt =====
-- Keys against the segments that they were made of.
use world_infra.Prelude.{
  ℕ, zero, suc, ◌≡◌, refl, sym, ap, ◌∙◌, subst, List, [], ◌∷◌, ◌++◌, All, ok, bind-ok, ok_injective,
}
use world_infra.Text.{Text, trim, codes}
use world_infra.Text.Scan.{split, join}
use world_infra.Text.Split.{split-join}
use world_infra.WorldIdentity.{WorldRef, IncarnationId}
use world_infra.IdempotencyKeys.{
  KeySegment, IdempotencyKey, KeyBuilder, new_key_builder, is_none, new_key_segment, from_segments,
  collect_segments, parse_new_key, push, push_incarnated_world, build_key,
}
use world_infra.IdempotencyKeys.Segments.{
  IsSegment, values, collect_segments-values, collect_segments-IsSegment, new_key_segment-IsSegment,
  new_key_segment-trim, values-plain,
}

-- A key splits into the values of its segments.
from_segments-split :
    (segments : List KeySegment) (key : IdempotencyKey)
    → All IsSegment segments
    → from_segments segments ≡ ok key
    → split b':' key.value ≡ values segments
unfolding from_segments is_none
from_segments-split [] key h k = absurd cc
from_segments-split (segment ∷ segments) key h k =
    let joined : join b':' (values (segment ∷ segments)) ≡ key.value =
      ap (λ key. key.value)
        (ok_injective (record { value = join b':' (values (segment ∷ segments)) }) key
          (from_segments (segment ∷ segments)) refl k) in
    ap (split b':') (sym joined)
    ∙ split-join b':' segment.value (values segments) (values-plain (segment ∷ segments) h)

-- A key of segments that `KeySegment::new` made is parsed as itself.
pub parse_new_key-from_segments :
    (segments : List KeySegment) (key : IdempotencyKey)
    → All IsSegment segments
    → from_segments segments ≡ ok key
    → parse_new_key key.value ≡ ok key
unfolding parse_new_key
parse_new_key-from_segments segments key h k =
    rw (from_segments-split segments key h k, collect_segments-values segments h) k

-- Two lists of such segments with the same key are the same list.
from_segments-injective :
    (a b : List KeySegment) (key : IdempotencyKey)
    → All IsSegment a
    → All IsSegment b
    → from_segments a ≡ ok key
    → from_segments b ≡ ok key
    → a ≡ b
from_segments-injective a b key h k e f =
    let same : values a ≡ values b =
      sym (from_segments-split a key h e) ∙ from_segments-split b key k f in
    ok_injective a b (collect_segments (values a)) (collect_segments-values a h)
      (ap collect_segments same ∙ collect_segments-values b k)

-- A text that is parsed to a key makes a key that is parsed as itself.
parse_new_key-normal :
    (value : Text) (key : IdempotencyKey)
    → parse_new_key value ≡ ok key
    → parse_new_key key.value ≡ ok key
unfolding parse_new_key
parse_new_key-normal value key h =
    let (segments, collected, k) =
      bind-ok (collect_segments (split b':' value)) from_segments key h in
    parse_new_key-from_segments segments key
      (collect_segments-IsSegment (split b':' value) segments collected) k

push-ok :
    (builder next : KeyBuilder) (value : Text)
    → push builder value ≡ ok next
    → (segment : KeySegment) × (new_key_segment value ≡ ok segment)
      × (next ≡ record { segments = builder.segments ++ segment ∷ [] })
unfolding push
push-ok builder next value h =
    let (segment, made, last) =
      bind-ok (new_key_segment value) (λ s. ok (record { segments = builder.segments ++ s ∷ [] }))
        next h in
    (segment, made, cc)

-- The segments that a world with an incarnation adds to an empty builder.
record WorldSegments (world_id incarnation : Text) (segments : List KeySegment) : Type 0 where
  marker : KeySegment
  world : KeySegment
  marker_incarnation : KeySegment
  instance_id : KeySegment
  all_made : segments ≡ marker ∷ world ∷ marker_incarnation ∷ instance_id ∷ []
  all_segments : All IsSegment segments
  world_trimmed : world.value ≡ trim world_id
  incarnation_trimmed : instance_id.value ≡ trim incarnation

abbrev segment_at : ℕ → List KeySegment → Text
segment_at n [] = []
segment_at zero (segment ∷ segments) = segment.value
segment_at (suc n) (segment ∷ segments) = segment_at n segments

module _ {ℓ κ} {W : Type ℓ} {I : Type κ} (display : W → Text) (display_incarnation : I → Text) where
  world_segments :
      (world : WorldRef W (IncarnationId I)) (next : KeyBuilder)
      → push_incarnated_world display display_incarnation new_key_builder world ≡ ok next
      → WorldSegments
          (display world.world_id)
          (display_incarnation world.incarnation.id)
          next.segments
  unfolding push_incarnated_world
  world_segments world next h =
      let (b1, p1, h1) = bind-ok (push new_key_builder (codes "world")) _ next h in
      let (b2, p2, h2) = bind-ok (push b1 (display world.world_id)) _ next h1 in
      let (b3, p3, h3) = bind-ok (push b2 (codes "incarnation")) _ next h2 in
      let (s1, m1, e1) = push-ok new_key_builder b1 (codes "world") p1 in
      let (s2, m2, e2) = push-ok b1 b2 (display world.world_id) p2 in
      let (s3, m3, e3) = push-ok b2 b3 (codes "incarnation") p3 in
      let (s4, m4, e4) = push-ok b3 next (display_incarnation world.incarnation.id) h3 in
      let made = new_key_segment-IsSegment in
      let whole : next.segments ≡ s1 ∷ s2 ∷ s3 ∷ s4 ∷ [] =
        ap (λ b. b.segments) e4
        ∙ ap (λ b. b.segments ++ s4 ∷ [])
            (e3
              ∙ ap (λ b. record { segments = b.segments ++ s3 ∷ [] })
                  (e2 ∙ ap (λ b. record { segments = b.segments ++ s2 ∷ [] }) e1)) in
      record {
        marker = s1;
        world = s2;
        marker_incarnation = s3;
        instance_id = s4;
        all_made = whole;
        all_segments =
            subst (All IsSegment) (sym whole)
              (made _ s1 m1, (made _ s2 m2, (made _ s3 m3, (made _ s4 m4, tt))));
        world_trimmed = new_key_segment-trim _ s2 m2;
        incarnation_trimmed = new_key_segment-trim _ s4 m4;
      }

  -- Two worlds with an incarnation that get the same key are displayed the same, but for white space
  -- around their identifiers.
  pub incarnated_key-injective :
      (v w : WorldRef W (IncarnationId I)) (b c : KeyBuilder) (key : IdempotencyKey)
      → push_incarnated_world display display_incarnation new_key_builder v ≡ ok b
      → push_incarnated_world display display_incarnation new_key_builder w ≡ ok c
      → build_key b ≡ ok key
      → build_key c ≡ ok key
      → (trim (display v.world_id) ≡ trim (display w.world_id))
        × (trim (display_incarnation v.incarnation.id)
            ≡ trim (display_incarnation w.incarnation.id))
  unfolding build_key
  incarnated_key-injective v w b c key h k e f =
      let x = world_segments v b h in
      let y = world_segments w c k in
      let same =
        from_segments-injective b.segments c.segments key x.all_segments y.all_segments e f in
      let whole = sym x.all_made ∙ same ∙ y.all_made in
      (
        sym x.world_trimmed ∙ ap (segment_at 1) whole ∙ y.world_trimmed,
        sym x.incarnation_trimmed ∙ ap (segment_at 3) whole ∙ y.incarnation_trimmed,
      )
