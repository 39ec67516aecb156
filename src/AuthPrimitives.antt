-- ===== src/AuthPrimitives.antt =====
-- crates/auth-primitives/src/lib.rs: token types, claims, session versions, labels and the parser of
-- bearer credentials.
pub mod Claims
pub mod Bearer
mod Tests
use world_infra.Prelude.{
  ℕ, Bool, true, false, not, ◌&&◌, ◌||◌, Option, none, some, is_some, [], ◌∷◌, ◌++◌, List, any, all,
  leb, ltb, ◌==◌, Result, ok, err, fail_if, ◌>>=◌, ◌>>◌, if◌then◌else◌, length, take,
}
use world_infra.Prelude.Int.{ℤ, pos, negsuc}
use world_infra.Text.{
  Text, codes, text_eq, byte_length, is_control, is_whitespace, is_ascii_alphanumeric, trim,
  is_empty,
}
use world_infra.Text.Scan.{to_ascii_lowercase}

pub data AuthPrimitiveError : Type 0 where
  empty : Text → AuthPrimitiveError
  invalid : Text → AuthPrimitiveError
  invalid_session_version : AuthPrimitiveError
  unknown_token_type : Text → AuthPrimitiveError

pub record SessionVersion : Type 0 where
  pub version : ℕ

-- `SessionVersion::try_from` for an `i64`
unfoldable pub session_version_try_from : ℤ → Result AuthPrimitiveError SessionVersion
session_version_try_from (pos value) = ok (record { version = value })
session_version_try_from (negsuc n) = err invalid_session_version

pub data TokenType : Type 0 where
  access refresh impersonation exchange impersonation_exchange : TokenType

abbrev pub as_str : TokenType → Text
as_str access = codes "access"
as_str refresh = codes "refresh"
as_str impersonation = codes "impersonation"
as_str exchange = codes "exchange"
as_str impersonation_exchange = codes "impersonation_exchange"

unfoldable pub requires_actor_session_version : TokenType → Bool
requires_actor_session_version impersonation = true
requires_actor_session_version impersonation_exchange = true
requires_actor_session_version _ = false

unfoldable pub token_accepted_as_bearer : TokenType → Bool
token_accepted_as_bearer access = true
token_accepted_as_bearer impersonation = true
token_accepted_as_bearer _ = false

unfoldable pub token_type_of : Text → Result AuthPrimitiveError TokenType
token_type_of other =
    if text_eq other (codes "access")
    then ok access
    else if text_eq other (codes "refresh")
    then ok refresh
    else if text_eq other (codes "impersonation")
    then ok impersonation
    else if text_eq other (codes "exchange")
    then ok exchange
    else if text_eq other (codes "impersonation_exchange")
    then ok impersonation_exchange
    else err (unknown_token_type other)

-- `TokenType::from_str`
unfoldable pub token_type_from_str : Text → Result AuthPrimitiveError TokenType
token_type_from_str value = token_type_of (to_ascii_lowercase (trim value))

unfoldable pub validate_label : Text → Text → ℕ → Result AuthPrimitiveError Text
validate_label value field max_len = do
  fail_if (any is_control value) (invalid field)
  let value = trim value
  fail_if (is_empty value) (empty field)
  fail_if
      (ltb max_len (byte_length value)
        || any
            (λ ch.
              not (
                is_ascii_alphanumeric ch || (ch == b'-' || ch == b'_' || ch == b':' || ch == b'.')))
            value)
      (invalid field)
  ok value

unfoldable pub validate_jwt_string_or_uri : Text → Text → ℕ → Result AuthPrimitiveError Text
validate_jwt_string_or_uri value field max_len = do
  fail_if (is_empty value || is_empty (trim value)) (empty field)
  fail_if
      (not (text_eq (trim value) value) || ltb max_len (byte_length value) || any is_control value)
      (invalid field)
  ok value

unfoldable pub validate_actor_id : Text → Result AuthPrimitiveError Text
validate_actor_id value = do
  value ← validate_jwt_string_or_uri value (codes "actor_id") 512
  fail_if (any is_whitespace value) (invalid (codes "actor_id"))
  ok value

pub record Issuer : Type 0 where
  pub issuer : Text

pub record IssuerLabel : Type 0 where
  pub issuer_label : Text

pub record Audience : Type 0 where
  pub audience : Text

pub record ActorId : Type 0 where
  pub actor_id : Text

unfoldable pub new_issuer : Text → Result AuthPrimitiveError Issuer
new_issuer value = do
  value ← validate_jwt_string_or_uri value (codes "issuer") 512
  ok (record { issuer = value })

unfoldable pub new_issuer_label : Text → Result AuthPrimitiveError IssuerLabel
new_issuer_label value = do
  value ← validate_label value (codes "issuer_label") 256
  ok (record { issuer_label = value })

unfoldable pub new_audience : Text → Result AuthPrimitiveError Audience
new_audience value = do
  value ← validate_label value (codes "audience") 128
  ok (record { audience = value })

unfoldable pub new_actor_id : Text → Result AuthPrimitiveError ActorId
new_actor_id value = do value ← validate_actor_id value; ok (record { actor_id = value })

unfoldable pub redact_secret : Text → Text
redact_secret value =
    let value = trim value in
    if leb (length value) 8 then codes "[redacted]" else take 4 value ++ codes "...[redacted]"

unfoldable pub origin_allowed : Text → List Text → Bool
origin_allowed origin allowed_origins =
    let origin = trim origin in
    not (is_empty origin) && any (λ allowed. text_eq origin (trim allowed)) allowed_origins
