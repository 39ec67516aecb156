-- ===== src/Upload/Requests.antt =====
-- The content types and sizes that a request may have.
use world_infra.Prelude.{
  ℕ, ◌≡◌, refl, ap, ◌∙◌, subst, ◌≤◌, ◌<◌, ◌⊎◌, inl, inr, Bool, true, false, any, Bool-cases, ltb,
  ltb→le, ok, fail_if, bind-ok, guard-ok, arith, if◌then◌else◌, ◌==◌,
}
use world_infra.Text.{Text, codes, text_eq}
use world_infra.Text.Laws.{text_eq→eq}
use world_infra.Text.Scan.{to_ascii_lowercase}
use world_infra.Upload.{
  UploadContentType, png, jpeg, webp, gif, pdf, as_str, content_type_eq, require_allowed,
  registered, is_padded, unsupported_content_type, parse_registered_strict,
  parse_strict_with_optional_jpeg_alias, ContentTypePolicy, parse_with_policy, ObjectKeyPolicy,
  new_with_policy, UploadSizeLimit, empty_upload, upload_too_large, validate_size,
  ValidatedUploadRequest, validate_upload_request,
}
use world_infra.Upload.Traversal.{IsScoped, new_with_policy-IsScoped}

registered-as_str :
    (other : Text) (t : UploadContentType) → registered other ≡ ok t → other ≡ as_str t
unfolding registered
registered-as_str other t h = ground (
  arith,
  text_eq→eq other (as_str png),
  text_eq→eq other (as_str jpeg),
  text_eq→eq other (as_str webp),
  text_eq→eq other (as_str gif),
  text_eq→eq other (as_str pdf),
)

-- The names of a type: its own, and where aliases are allowed `image/jpg` for JPEG.
pub IsNamed : Text → Bool → UploadContentType → Type 0
IsNamed value alias t =
    (to_ascii_lowercase value ≡ as_str t)
    ⊎ (alias ≡ true) × (t ≡ jpeg) × (to_ascii_lowercase value ≡ codes "image/jpg")

parse_registered_strict-as_str :
    (value : Text) (t : UploadContentType)
    → parse_registered_strict value ≡ ok t
    → to_ascii_lowercase value ≡ as_str t
unfolding parse_registered_strict
parse_registered_strict-as_str value t h =
    let (_, rest) =
      guard-ok (is_padded value) (unsupported_content_type value)
        (registered (to_ascii_lowercase value)) t h in
    registered-as_str (to_ascii_lowercase value) t rest

alias-IsNamed :
    (value : Text) (t : UploadContentType)
    → parse_strict_with_optional_jpeg_alias value ≡ ok t
    → IsNamed value true t
unfolding parse_strict_with_optional_jpeg_alias IsNamed
alias-IsNamed value t h =
    let jpg = text_eq (to_ascii_lowercase value) (codes "image/jpg") in
    let (_, rest) =
      guard-ok (is_padded value) (unsupported_content_type value)
        (if jpg then ok jpeg else parse_registered_strict value) t h in
    elim (Bool-cases jpg) [
      | inl e ↦ inr (
        refl,
        (ground (arith, rest, e)),
        text_eq→eq (to_ascii_lowercase value) (codes "image/jpg") e,
      )
      | inr e ↦ inl (parse_registered_strict-as_str value t (ground (arith, rest, e)))
    ]

either-IsNamed :
    (value : Text) (alias : Bool) (t : UploadContentType)
    → (if alias then parse_strict_with_optional_jpeg_alias value else parse_registered_strict value)
      ≡ ok t
    → IsNamed value alias t
unfolding IsNamed
either-IsNamed value true t h = alias-IsNamed value t h
either-IsNamed value false t h = inl (parse_registered_strict-as_str value t h)

pub parse_with_policy-IsNamed :
    (value : Text) (policy : ContentTypePolicy) (t : UploadContentType)
    → parse_with_policy value policy ≡ ok t
    → IsNamed value policy.allow_jpeg_alias t × (any (content_type_eq t) policy.allowed ≡ true)
unfolding parse_with_policy require_allowed IsNamed
parse_with_policy-IsNamed value policy t h =
    let (parsed, e, rest) =
      bind-ok
        (if policy.allow_jpeg_alias
          then parse_strict_with_optional_jpeg_alias value
          else parse_registered_strict value)
        (λ parsed. require_allowed parsed policy.allowed) t h in
    elim (Bool-cases (any (content_type_eq parsed) policy.allowed)) [
      | inl allowed ↦
          let same : parsed ≡ t = ground (arith, rest, allowed) in
          (
            either-IsNamed value policy.allow_jpeg_alias t (e ∙ ap ok same),
            subst (λ u. any (content_type_eq u) policy.allowed ≡ true) same allowed,
          )
      | inr refused ↦ ground (arith, rest, refused)
    ]

-- What is checked of a request.
pub record IsValidRequest (value : Text) (keys : ObjectKeyPolicy) (content_type : Text)
    (types : ContentTypePolicy) (size : ℕ) (limit : UploadSizeLimit)
    (request : ValidatedUploadRequest) : Type 0 where
  pub key_scoped : IsScoped value keys request.object_key
  pub type_named : IsNamed content_type types.allow_jpeg_alias request.content_type
  pub type_allowed : any (content_type_eq request.content_type) types.allowed ≡ true
  pub size_kept : request.size ≡ size
  pub not_empty : 0 < size
  pub bounded : size ≤ limit.max_bytes

validate_size-bounds :
    (limit : UploadSizeLimit) (size : ℕ)
    → validate_size limit size ≡ ok tt
    → (0 < size) × (size ≤ limit.max_bytes)
unfolding validate_size
validate_size-bounds limit size h =
    let (some_bytes, h1) =
      guard-ok (size == 0) empty_upload
        (fail_if (ltb limit.max_bytes size) (upload_too_large size limit.max_bytes)) tt h in
    elim (Bool-cases (ltb limit.max_bytes size)) [
      | inl over ↦ ground (arith, h1, over)
      | inr under ↦ (ground (arith, some_bytes), ltb→le limit.max_bytes size under)
    ]

-- A request that is accepted has a key within its prefix, a content type that its text names and the
-- policy allows, and a size from one byte to the limit.
pub validate_upload_request-IsValid :
    (value : Text) (keys : ObjectKeyPolicy) (content_type : Text) (types : ContentTypePolicy)
    (size : ℕ) (limit : UploadSizeLimit) (request : ValidatedUploadRequest)
    → validate_upload_request value keys content_type types size limit ≡ ok request
    → IsValidRequest value keys content_type types size limit request
unfolding validate_upload_request
validate_upload_request-IsValid value keys content_type types size limit request h =
    let (key, e1, h1) = bind-ok (new_with_policy value keys) _ request h in
    let (t, e2, h2) = bind-ok (parse_with_policy content_type types) _ request h1 in
    let (u, e3, h3) = bind-ok (validate_size limit size) _ request h2 in
    let (named, allowed) = parse_with_policy-IsNamed content_type types t e2 in
    let (positive, bounded) = validate_size-bounds limit size e3 in
    let made : record { object_key = key; content_type = t; size = size } ≡ request = cc in
    subst (IsValidRequest value keys content_type types size limit) made (record {
      key_scoped = new_with_policy-IsScoped value keys key e1;
      type_named = named;
      type_allowed = allowed;
      size_kept = refl;
      not_empty = positive;
      bounded = bounded;
    })
