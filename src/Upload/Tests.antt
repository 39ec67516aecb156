-- ===== src/Upload/Tests.antt =====
-- A request at concrete inputs.
use world_infra.Prelude.{refl, true, [], ◌∷◌}
use world_infra.Text.{codes, trim, trim_start, is_control, is_whitespace, is_ascii_alphanumeric}
use world_infra.Text.Scan.{split, strip_prefix}
use world_infra.Upload.{
  ObjectKeyPolicy, ContentTypePolicy, UploadSizeLimit, ValidatedUploadRequest, png, jpeg,
  content_type_eq, require_allowed, parse_strict_with_optional_jpeg_alias, parse_with_policy,
  validate_size, conservative_object_key_char, is_dots, invalid_key_syntax, has_prefix_boundary,
  new_with_policy, validate_upload_request,
}
use world_infra.Upload.Requests.{IsValidRequest, validate_upload_request-IsValid}

abbrev keys : ObjectKeyPolicy
keys = record {
  required_prefix = codes "u/7";
  max_len = 64;
  allowed_char = conservative_object_key_char;
}

abbrev types : ContentTypePolicy
types = record { allowed = png ∷ jpeg ∷ []; allow_jpeg_alias = true }

abbrev limit : UploadSizeLimit
limit = record { max_bytes = 1_000 }

abbrev request : ValidatedUploadRequest
request = record {
  object_key = record { value = codes "u/7/a.jpg" };
  content_type = jpeg;
  size = 900;
}

validate_upload_request-IsValid_example :
    IsValidRequest (codes "u/7/a.jpg") keys (codes "image/JPG") types 900 limit request
unfolding validate_upload_request new_with_policy has_prefix_boundary invalid_key_syntax is_dots
    conservative_object_key_char validate_size parse_with_policy
    parse_strict_with_optional_jpeg_alias require_allowed content_type_eq split strip_prefix trim
    trim_start is_control is_whitespace is_ascii_alphanumeric
validate_upload_request-IsValid_example =
    validate_upload_request-IsValid (codes "u/7/a.jpg") keys (codes "image/JPG") types 900 limit
      request refl
