-- ===== src/WsAuth/Frames.antt =====
-- What the first frame and the nonce let through, and the header that is made of a token.
use world_infra.Prelude.{
  ◌≡◌, refl, sym, ap, ◌∙◌, subst, ◌≤◌, ◌↔◌, true, not, ◌||◌, Option, none, some, is_some_and, ◌++◌,
  any, ltb, ok, err, ok_or, bind-ok, guard-ok, Result-cases, ltb→le, inl, inr, arith,
}
use world_infra.Text.{Text, codes, text_eq, byte_length, is_control, is_whitespace, trim, is_empty}
use world_infra.Text.Laws.{text_eq→eq, text_eq_iff}
use world_infra.AuthPrimitives.{AuthPrimitiveError}
use world_infra.AuthPrimitives.Bearer.{
  BearerCredential, parse_bearer_authorization, parse_bearer_authorization-normal,
}
use world_infra.WsAuth.{
  WsAuthConfig, RawInitialAuthFrame, InitialAuthFrame, AuthNonce, valid_ws_token, accept_frame,
  parse_initial_auth_text, bearer_header_from_ws_token, new_auth_nonce, require_auth_nonce,
  unwrap_or_default, invalid_auth_nonce, frame_too_large, malformed_auth_frame,
  invalid_message_type, missing_token,
}

valid_ws_token-trim : (token : Text) → valid_ws_token token ≡ true → trim token ≡ token
unfolding valid_ws_token
valid_ws_token-trim token h = text_eq→eq (trim token) token (ground arith)

-- A valid token is parsed on its own or behind `Bearer `.
valid_ws_token-parse :
    (token : Text) (e : AuthPrimitiveError)
    → valid_ws_token token ≡ true
    → parse_bearer_authorization (some token) ≡ err e
    → (credential : BearerCredential) × (parse_bearer_authorization
          (some (codes "Bearer " ++ token))
        ≡ ok credential)
unfolding valid_ws_token
valid_ws_token-parse token e h k =
    elim (Result-cases (parse_bearer_authorization (some (codes "Bearer " ++ token)))) [
      | inl found ↦ found
      | inr (f, refused) ↦ ground (arith, k, refused)
    ]

-- The header of a valid token is a bearer header that is parsed.
bearer_header-parse :
    (token : Text)
    → valid_ws_token token ≡ true
    → (credential : BearerCredential) × (parse_bearer_authorization
          (some (bearer_header_from_ws_token token))
        ≡ ok credential)
unfolding bearer_header_from_ws_token
bearer_header-parse token h =
    rw (bearer_header_from_ws_token, valid_ws_token-trim token h)
      (elim (Result-cases (parse_bearer_authorization (some token))) [
        | inl (credential, e) ↦
            rw e (credential, parse_bearer_authorization-normal (some token) credential e)
        | inr (refusal, e) ↦
            rw (e, valid_ws_token-trim token h) (valid_ws_token-parse token refusal h e)
      ])

type_matches :
    (message_type : Option Text) (expected : Text)
    → is_some_and message_type (text_eq expected) ≡ true
    → message_type ≡ some expected
type_matches none expected h = absurd cc
type_matches (some given) expected h = ap some (sym (text_eq→eq expected given h))

valid_ws_token-given :
    (token : Option Text)
    → valid_ws_token (unwrap_or_default token) ≡ true
    → token ≡ some (unwrap_or_default token)
unfolding valid_ws_token
valid_ws_token-given none h = absurd cc
valid_ws_token-given (some value) h = refl

ok_or-some :
    (o : Option RawInitialAuthFrame) (raw : RawInitialAuthFrame)
    → ok_or o malformed_auth_frame ≡ ok raw
    → o ≡ some raw
ok_or-some none raw h = absurd cc
ok_or-some (some a) raw h = cc

accept_frame-IsValid :
    (config : WsAuthConfig) (raw : RawInitialAuthFrame) (frame : InitialAuthFrame)
    → accept_frame config raw ≡ ok frame
    → (raw.message_type ≡ some config.auth_message_type)
      × (raw.token ≡ some frame.token)
      × (valid_ws_token frame.token ≡ true)
unfolding accept_frame
accept_frame-IsValid config raw frame h =
    let token = unwrap_or_default raw.token in
    let (typed, rest) =
      guard-ok (not (is_some_and raw.message_type (text_eq config.auth_message_type)))
        invalid_message_type _ frame h in
    let (valid, last) =
      guard-ok (not (valid_ws_token token)) missing_token (ok (record { token = token })) frame
        rest in
    let named : token ≡ frame.token = cc in
    let good : valid_ws_token token ≡ true = ground (arith, valid) in
    (
      type_matches raw.message_type config.auth_message_type (ground (arith, typed)),
      valid_ws_token-given raw.token good ∙ ap some named,
      subst (λ t. valid_ws_token t ≡ true) named good,
    )

-- A frame that is accepted fits the limit and has the configured type; its token makes a header that
-- is parsed.
pub parse_initial_auth_text-IsBounded :
    (from_json : Text → Option RawInitialAuthFrame) (text : Text) (config : WsAuthConfig)
    (frame : InitialAuthFrame)
    → parse_initial_auth_text from_json text config ≡ ok frame
    → (raw : RawInitialAuthFrame) × (byte_length text ≤ config.max_auth_frame_bytes)
      × (from_json text ≡ some raw)
      × (raw.message_type ≡ some config.auth_message_type)
      × (raw.token ≡ some frame.token)
      × (credential : BearerCredential) × (parse_bearer_authorization
            (some (bearer_header_from_ws_token frame.token))
          ≡ ok credential)
unfolding parse_initial_auth_text
parse_initial_auth_text-IsBounded from_json text config frame h =
    let (short, rest) =
      guard-ok (ltb config.max_auth_frame_bytes (byte_length text))
        (frame_too_large (byte_length text) config.max_auth_frame_bytes) _ frame h in
    let (raw, parsed, accepted) =
      bind-ok (ok_or (from_json text) malformed_auth_frame) (accept_frame config) frame rest in
    let (typed, given, valid) = accept_frame-IsValid config raw frame accepted in
    let (credential, e) = bearer_header-parse frame.token valid in
    (
      raw,
      ltb→le config.max_auth_frame_bytes (byte_length text) short,
      ok_or-some (from_json text) raw parsed,
      typed,
      given,
      credential,
      e,
    )

-- A nonce is accepted exactly when it is repeated as it was made, and every other answer is refused.
require_auth_nonce_iff :
    (value : Text) (nonce : AuthNonce) (provided : Option Text)
    → new_auth_nonce value ≡ ok nonce
    → (require_auth_nonce nonce provided ≡ ok tt) ↔ (provided ≡ some value)
unfolding require_auth_nonce new_auth_nonce
require_auth_nonce_iff value nonce none h = (λ k. absurd cc, λ k. absurd cc)
require_auth_nonce_iff value nonce (some given) h =
    let bad =
      is_empty value
      || not (text_eq (trim value) value)
      || any (λ ch. is_control ch || is_whitespace ch) value in
    let (formed, last) = guard-ok bad invalid_auth_nonce (ok (record { nonce = value })) nonce h in
    let made : nonce.nonce ≡ value = cc in
    let (forward, back) = text_eq_iff given nonce.nonce in ground (arith, made, forward, back)
