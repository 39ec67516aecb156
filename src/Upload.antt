-- ===== src/Upload.antt =====
-- crates/upload-core/src/lib.rs: object keys under a prefix, content types, size limits and the check of
-- an upload request.
mod Requests
mod Traversal
mod Tests
use world_infra.Prelude.{
  ℕ, Bool, true, false, not, ◌&&◌, ◌||◌, Option, none, some, is_some_and, List, [], ◌∷◌, any, all,
  ltb, ◌==◌, Result, ok, err, fail_if, ◌>>=◌, ◌>>◌, if◌then◌else◌,
}
use world_infra.Text.{
  Text, codes, text_eq, byte_length, is_control, is_ascii_alphanumeric, trim, is_empty,
}
use world_infra.Text.Scan.{
  to_ascii_lowercase, starts_with, ends_with, split, strip_prefix, contains,
}

abbrev pub default_object_key_max_len : ℕ
default_object_key_max_len = 512

pub data UploadError : Type 0 where
  empty : Text → UploadError
  invalid_object_key : UploadError
  unsupported_content_type : Text → UploadError
  empty_upload : UploadError
  upload_too_large : ℕ → ℕ → UploadError

pub data UploadContentType : Type 0 where
  png jpeg webp gif pdf : UploadContentType

abbrev pub as_str : UploadContentType → Text
as_str png = codes "image/png"
as_str jpeg = codes "image/jpeg"
as_str webp = codes "image/webp"
as_str gif = codes "image/gif"
as_str pdf = codes "application/pdf"

unfoldable pub content_type_eq : UploadContentType → UploadContentType → Bool
content_type_eq png png = true
content_type_eq jpeg jpeg = true
content_type_eq webp webp = true
content_type_eq gif gif = true
content_type_eq pdf pdf = true
content_type_eq _ _ = false

unfoldable pub require_allowed :
    UploadContentType → List UploadContentType → Result UploadError UploadContentType
require_allowed content_type allowed =
    if any (content_type_eq content_type) allowed
    then ok content_type
    else err (unsupported_content_type (as_str content_type))

unfoldable pub registered : Text → Result UploadError UploadContentType
registered other =
    if text_eq other (codes "image/png")
    then ok png
    else if text_eq other (codes "image/jpeg")
    then ok jpeg
    else if text_eq other (codes "image/webp")
    then ok webp
    else if text_eq other (codes "image/gif")
    then ok gif
    else if text_eq other (codes "application/pdf")
    then ok pdf
    else err (unsupported_content_type other)

abbrev pub is_padded : Text → Bool
is_padded value = is_empty value || not (text_eq value (trim value)) || any is_control value

unfoldable pub parse_registered_strict : Text → Result UploadError UploadContentType
parse_registered_strict value = do
  fail_if (is_padded value) (unsupported_content_type value)
  registered (to_ascii_lowercase value)

unfoldable pub parse_strict : Text → Result UploadError UploadContentType
parse_strict value = parse_registered_strict value

unfoldable pub parse_strict_with_optional_jpeg_alias : Text → Result UploadError UploadContentType
parse_strict_with_optional_jpeg_alias value = do
  fail_if (is_padded value) (unsupported_content_type value)
  if text_eq (to_ascii_lowercase value) (codes "image/jpg")
      then ok jpeg
      else parse_registered_strict value

pub record ContentTypePolicy : Type 0 where
  pub allowed : List UploadContentType
  pub allow_jpeg_alias : Bool

-- `ContentTypePolicy::new`
unfoldable pub new_content_type_policy : List UploadContentType → ContentTypePolicy
new_content_type_policy allowed = record { allowed = allowed; allow_jpeg_alias = false }

unfoldable pub with_jpeg_alias : ContentTypePolicy → Bool → ContentTypePolicy
with_jpeg_alias policy allow_jpeg_alias = record {
  allowed = policy.allowed;
  allow_jpeg_alias = allow_jpeg_alias;
}

unfoldable pub parse_with_policy : Text → ContentTypePolicy → Result UploadError UploadContentType
parse_with_policy value policy = do
  parsed ←
      (if policy.allow_jpeg_alias
        then parse_strict_with_optional_jpeg_alias value
        else parse_registered_strict value)
  require_allowed parsed policy.allowed

-- `UploadContentType::from_str`
unfoldable pub content_type_from_str : Text → Result UploadError UploadContentType
content_type_from_str value =
    let other = to_ascii_lowercase (trim value) in
    if text_eq other (codes "image/jpg") then ok jpeg else registered other

pub record UploadSizeLimit : Type 0 where
  pub max_bytes : ℕ

-- `UploadSizeLimit::new`
unfoldable pub new_upload_size_limit : ℕ → Result UploadError UploadSizeLimit
new_upload_size_limit max_bytes = do
  fail_if (max_bytes == 0) empty_upload
  ok (record { max_bytes = max_bytes })

-- `UploadSizeLimit::validate`
unfoldable pub validate_size : UploadSizeLimit → ℕ → Result UploadError (Unit {0})
validate_size limit size = do
  fail_if (size == 0) empty_upload
  fail_if (ltb limit.max_bytes size) (upload_too_large size limit.max_bytes)

unfoldable pub conservative_object_key_char : ℕ → Bool
conservative_object_key_char ch =
    is_ascii_alphanumeric ch || (ch == b'/' || ch == b'_' || ch == b'-' || ch == b'.')

pub record ScopedObjectKey : Type 0 where
  pub value : Text

pub record ObjectKeyPolicy : Type 0 where
  pub required_prefix : Text
  pub max_len : ℕ
  pub allowed_char : ℕ → Bool

-- `ObjectKeyPolicy::new`
unfoldable pub new_object_key_policy : Text → ObjectKeyPolicy
new_object_key_policy required_prefix = record {
  required_prefix = required_prefix;
  max_len = default_object_key_max_len;
  allowed_char = conservative_object_key_char;
}

unfoldable pub with_max_len : ObjectKeyPolicy → ℕ → ObjectKeyPolicy
with_max_len policy max_len = record {
  required_prefix = policy.required_prefix;
  max_len = max_len;
  allowed_char = policy.allowed_char;
}

unfoldable pub with_allowed_char : ObjectKeyPolicy → (ℕ → Bool) → ObjectKeyPolicy
with_allowed_char policy allowed_char = record {
  required_prefix = policy.required_prefix;
  max_len = policy.max_len;
  allowed_char = allowed_char;
}

unfoldable pub is_dots : Text → Bool
is_dots part = text_eq part (codes ".") || text_eq part (codes "..")

unfoldable pub invalid_key_syntax : Text → (ℕ → Bool) → Bool
invalid_key_syntax value allowed_char =
    starts_with b'/' value
    || contains (codes "//") value
    || any is_dots (split b'/' value)
    || any is_control value
    || any (λ ch. ch == b'\\') value
    || not (all allowed_char value)

unfoldable pub has_prefix_boundary : Text → Text → Bool
has_prefix_boundary value required_prefix =
    is_some_and (strip_prefix required_prefix value)
      (λ rest. is_empty rest || ends_with b'/' required_prefix || starts_with b'/' rest)

-- `ScopedObjectKey::new_with_policy`
unfoldable pub new_with_policy : Text → ObjectKeyPolicy → Result UploadError ScopedObjectKey
new_with_policy value policy = do
  fail_if (is_empty value) (empty (codes "object_key"))
  fail_if (is_empty policy.required_prefix) (empty (codes "required_prefix"))
  fail_if (policy.max_len == 0 || ltb policy.max_len (byte_length value)) invalid_object_key
  fail_if
      (invalid_key_syntax policy.required_prefix policy.allowed_char
        || starts_with b'/' value
        || ends_with b'/' value
        || contains (codes "//") value
        || any (λ part. is_dots part || is_empty part) (split b'/' value)
        || any is_control value
        || any (λ ch. ch == b'\\') value
        || not (all policy.allowed_char value)
        || not (has_prefix_boundary value policy.required_prefix))
      invalid_object_key
  ok (record { value = value })

-- `ScopedObjectKey::new`
unfoldable pub new_scoped_object_key : Text → Text → Result UploadError ScopedObjectKey
new_scoped_object_key value required_prefix =
    new_with_policy value (new_object_key_policy required_prefix)

pub record ValidatedUploadRequest : Type 0 where
  pub object_key : ScopedObjectKey
  pub content_type : UploadContentType
  pub size : ℕ

unfoldable pub validate_upload_request :
    Text
    → ObjectKeyPolicy
    → Text
    → ContentTypePolicy
    → ℕ
    → UploadSizeLimit
    → Result UploadError ValidatedUploadRequest
validate_upload_request object_key object_key_policy content_type content_type_policy size
      size_limit =
    do
      object_key ← new_with_policy object_key object_key_policy
      content_type ← parse_with_policy content_type content_type_policy
      validate_size size_limit size
      ok (record { object_key = object_key; content_type = content_type; size = size })

pub data UploadCompletionState : Type 0 where
  pending completed deleted rejected : UploadCompletionState

unfoldable pub is_terminal : UploadCompletionState → Bool
is_terminal pending = false
is_terminal completed = true
is_terminal deleted = true
is_terminal rejected = true
