-- ===== src/WsAuth.antt =====
-- crates/auth-ws-core/src/lib.rs: the first frame of a WebSocket, the nonce that later frames repeat, and
-- the limiter of control frames. The JSON parser is a parameter: it answers with the two fields that the
-- frame's type names, or refuses the text. Instants are nanoseconds.
pub mod Frames
pub mod Limiter
mod Tests
use world_infra.Prelude.{
  ℕ, ◌-◌, Bool, true, false, not, ◌||◌, Option, none, some, is_some_and, List, [], ◌∷◌, ◌++◌, any,
  retain, length, ltb, leb, ◌==◌, Result, ok, err, fail_if, ok_or, ◌>>=◌, ◌>>◌, if◌then◌else◌,
}
use world_infra.Text.{Text, codes, text_eq, byte_length, is_control, is_whitespace, trim, is_empty}
use world_infra.AuthPrimitives.{AuthPrimitiveError}
use world_infra.AuthPrimitives.Bearer.{BearerCredential, parse_bearer_authorization}

pub data WsAuthError : Type 0 where
  authentication_required : WsAuthError
  frame_too_large : ℕ → ℕ → WsAuthError
  binary_auth_frame malformed_auth_frame invalid_message_type missing_token : WsAuthError
  invalid_auth_nonce control_rate_limited : WsAuthError

unfoldable pub code : WsAuthError → Text
code authentication_required = codes "authentication_required"
code (frame_too_large len max) = codes "frame_too_large"
code binary_auth_frame = codes "binary_auth_unsupported"
code malformed_auth_frame = codes "invalid_auth"
code invalid_message_type = codes "invalid_auth"
code missing_token = codes "invalid_auth"
code invalid_auth_nonce = codes "invalid_auth_nonce"
code control_rate_limited = codes "control_rate_limited"

pub record WsAuthConfig : Type 0 where
  pub max_auth_frame_bytes : ℕ
  pub auth_message_type : Text

-- `WsAuthConfig::default`
abbrev pub default_config : WsAuthConfig
default_config = record { max_auth_frame_bytes = 4096; auth_message_type = codes "auth" }

pub record InitialAuthFrame : Type 0 where
  pub token : Text

pub record RawInitialAuthFrame : Type 0 where
  pub message_type : Option Text
  pub token : Option Text

-- `Option::unwrap_or_default` of a text, and `Result::is_ok`.
abbrev pub unwrap_or_default : Option Text → Text
unwrap_or_default none = []
unwrap_or_default (some value) = value

abbrev is_ok : Result AuthPrimitiveError BearerCredential → Bool
is_ok (ok credential) = true
is_ok (err e) = false

unfoldable pub valid_ws_token : Text → Bool
valid_ws_token token =
    if is_empty token || not (text_eq (trim token) token) || any is_control token
    then false
    else if any is_whitespace token
    then is_ok (parse_bearer_authorization (some token))
    else is_ok (parse_bearer_authorization (some (codes "Bearer " ++ token)))

-- The checks of the fields of a frame.
unfoldable pub accept_frame :
    WsAuthConfig → RawInitialAuthFrame → Result WsAuthError InitialAuthFrame
accept_frame config raw = do
  fail_if (not (is_some_and raw.message_type (text_eq config.auth_message_type)))
      invalid_message_type
  let token = unwrap_or_default raw.token
  fail_if (not (valid_ws_token token)) missing_token
  ok (record { token = token })

unfoldable pub parse_initial_auth_text :
    (Text → Option RawInitialAuthFrame) → Text → WsAuthConfig → Result WsAuthError InitialAuthFrame
parse_initial_auth_text from_json text config = do
  fail_if (ltb config.max_auth_frame_bytes (byte_length text))
      (frame_too_large (byte_length text) config.max_auth_frame_bytes)
  raw ← ok_or (from_json text) malformed_auth_frame
  accept_frame config raw

unfoldable pub reject_initial_auth_binary : Result WsAuthError InitialAuthFrame
reject_initial_auth_binary = err binary_auth_frame

pub record AuthNonce : Type 0 where
  pub nonce : Text

-- `AuthNonce::new`
unfoldable pub new_auth_nonce : Text → Result WsAuthError AuthNonce
new_auth_nonce value = do
  fail_if
      (is_empty value
        || not (text_eq (trim value) value)
        || any (λ ch. is_control ch || is_whitespace ch) value)
      invalid_auth_nonce
  ok (record { nonce = value })

unfoldable pub require_auth_nonce : AuthNonce → Option Text → Result WsAuthError (Unit {0})
require_auth_nonce expected none = err invalid_auth_nonce
require_auth_nonce expected (some value) =
    if text_eq value expected.nonce then ok tt else err invalid_auth_nonce

pub record ControlFrameRateLimit : Type 0 where
  pub max_frames : ℕ
  pub window : ℕ
  pub accepted_at : List ℕ

-- `ControlFrameRateLimit::new`
unfoldable pub new_control_limit : ℕ → ℕ → ControlFrameRateLimit
new_control_limit max_frames window = record {
  max_frames = max_frames;
  window = window;
  accepted_at = [];
}

abbrev keep : List ℕ → ControlFrameRateLimit → ControlFrameRateLimit
keep accepted_at limit = record {
  max_frames = limit.max_frames;
  window = limit.window;
  accepted_at = accepted_at;
}

-- The answer and the limiter that is left.
unfoldable pub allow_at : ControlFrameRateLimit → ℕ → Bool × ControlFrameRateLimit
allow_at limit now =
    if limit.max_frames == 0 || limit.window == 0
    then (false, limit)
    else let recent =
        retain (λ accepted_at. ltb (now - accepted_at) limit.window) limit.accepted_at in
      if leb limit.max_frames (length recent)
      then (false, keep recent limit)
      else (true, keep (recent ++ now ∷ []) limit)

unfoldable pub require_allowed_at :
    ControlFrameRateLimit → ℕ → Result WsAuthError (Unit {0}) × ControlFrameRateLimit
require_allowed_at limit now =
    let answer = allow_at limit now in
    (if answer.0 then ok tt else err control_rate_limited, answer.1)

unfoldable pub bearer_header_from_ws_token : Text → Text
bearer_header_from_ws_token token =
    let token = trim token in
    elim (parse_bearer_authorization (some token)) [
      | ok credential ↦ codes "Bearer " ++ credential.token
      | err e ↦ codes "Bearer " ++ token
    ]
