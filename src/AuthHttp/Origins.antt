-- ===== src/AuthHttp/Origins.antt =====
-- crates/auth-http-core/src/lib.rs: the origins that cookie endpoints trust. The library's parser of
-- addresses is a parameter: it tells whether a text is an address, and whether one of version 6.
use world_infra.Prelude.{
  ℕ, Bool, true, false, not, ◌||◌, Option, none, some, is_some, is_some_and, List, [], ◌∷◌, ◌++◌,
  any, all, ltb, ◌==◌, count, Result, ok, err, fail_if, ok_or, ◌>>=◌, ◌>>◌, if◌then◌else◌,
}
use world_infra.Text.{Text, codes, text_eq, byte_length, trim, is_empty}
use world_infra.Text.Scan.{
  to_ascii_lowercase, is_ascii_digit, starts_with, ends_with, split, split_once, strip_prefix,
  contains, parse_unsigned, split_scheme,
}
use world_infra.AuthHttp.{
  AuthHttpError, untrusted_origin, is_ascii_control, is_ascii_whitespace, valid_cookie_domain_label,
}

pub data IpAddr : Type 0 where
  v4 v6 : IpAddr

abbrev is_v6 : IpAddr → Bool
is_v6 v4 = false
is_v6 v6 = true

pub record HostPort : Type 0 where
  pub host : Text
  pub port : Option Text
  pub bracketed : Bool

-- The text behind a bracket.
unfoldable pub after_bracket : Text → Text → Result AuthHttpError HostPort
after_bracket host after =
    if is_empty after
    then ok (record { host = host; port = none; bracketed = true })
    else elim (strip_prefix (codes ":") after) [
      | none ↦ err untrusted_origin
      | some port ↦ ok (record { host = host; port = some port; bracketed = true })
    ]

unfoldable pub plain_host_port : Text → Result AuthHttpError HostPort
plain_host_port authority = do
  fail_if (any (λ c. c == b']') authority || any (λ c. c == b'[') authority) untrusted_origin
  fail_if (ltb 1 (count (λ c. c == b':') authority)) untrusted_origin
  ok (elim (split_once b':' authority) [
    | some halves ↦ record { host = halves.0; port = some halves.1; bracketed = false }
    | none ↦ record { host = authority; port = none; bracketed = false }
  ])

unfoldable pub split_host_port : Text → Result AuthHttpError HostPort
split_host_port authority = elim (strip_prefix (codes "[") authority) [
  | none ↦ plain_host_port authority
  | some rest ↦ elim (split_once b']' rest) [
    | none ↦ err untrusted_origin
    | some halves ↦ after_bracket halves.0 halves.1
  ]
]

unfoldable pub validate_port : Text → Result AuthHttpError (Unit {0})
validate_port port = do
  fail_if (is_empty port || ltb 5 (byte_length port) || not (all is_ascii_digit port))
      untrusted_origin
  parsed ← ok_or (parse_unsigned 65535 port) untrusted_origin
  fail_if (parsed == 0) untrusted_origin

unfoldable pub validate_labels : Text → Result AuthHttpError (Unit {0})
validate_labels host = do
  fail_if (starts_with b'.' host || ends_with b'.' host || contains (codes "..") host)
      untrusted_origin
  fail_if (not (all valid_cookie_domain_label (split b'.' host))) untrusted_origin

unfoldable pub validate_name : Text → Result AuthHttpError (Unit {0})
validate_name host = do
  fail_if (any (λ c. c == b':') host) untrusted_origin
  if text_eq (to_ascii_lowercase host) (codes "localhost") then ok tt else validate_labels host

abbrev ends_authority : ℕ → Bool
ends_authority c = c == b'/' || (c == b'?' || c == b'#')

-- What stands in front of the first character of a class.
unfoldable pub take_until : (ℕ → Bool) → Text → Text
take_until p [] = []
take_until p (c ∷ s) = if p c then [] else c ∷ take_until p s

pub record TrustedOriginPolicy : Type 0 where
  pub allowed_origins : List Text
  pub require_origin_or_referer : Bool

unfoldable pub allow_missing_origin_or_referer : TrustedOriginPolicy → TrustedOriginPolicy
allow_missing_origin_or_referer policy = record {
  allowed_origins = policy.allowed_origins;
  require_origin_or_referer = false;
}

abbrev pub is_ok_and : Result AuthHttpError Text → (Text → Bool) → Bool
is_ok_and (ok t) p = p t
is_ok_and (err e) p = false

module _ (parse_ip : Text → Option IpAddr) where
  unfoldable pub validate_host : Text → Result AuthHttpError (Unit {0})
  validate_host host = do
    fail_if (is_empty host) untrusted_origin
    if is_some (parse_ip host) then ok tt else validate_name host

  unfoldable pub validate_authority : Text → Result AuthHttpError (Unit {0})
  validate_authority authority = do
    parts ← split_host_port authority
    elim parts.port [ none ↦ ok tt | some port ↦ validate_port port ]
    if parts.bracketed
        then fail_if (not (is_some_and (parse_ip parts.host) is_v6)) untrusted_origin
        else validate_host parts.host

  unfoldable pub normalize_origin : Text → Result AuthHttpError Text
  normalize_origin origin = do
    let origin = trim origin
    fail_if (is_empty origin || any is_ascii_control origin) untrusted_origin
    halves ← ok_or (split_scheme origin) untrusted_origin
    let scheme = to_ascii_lowercase halves.0
    let rest = halves.1
    fail_if
        (not (text_eq scheme (codes "http") || text_eq scheme (codes "https"))
          || is_empty rest
          || any (λ c. c == b'/' || (c == b'?' || (c == b'#' || c == b'\\'))) rest
          || any (λ c. c == b'@') rest
          || any is_ascii_whitespace rest)
        untrusted_origin
    validate_authority rest
    ok (scheme ++ (codes "://" ++ to_ascii_lowercase rest))

  unfoldable pub origin_from_url : Text → Result AuthHttpError Text
  origin_from_url url = do
    let url = trim url
    halves ← ok_or (split_scheme url) untrusted_origin
    let authority = take_until ends_authority halves.1
    fail_if (is_empty authority) untrusted_origin
    normalize_origin (halves.0 ++ (codes "://" ++ authority))

  unfoldable pub normalize_origins : List Text → Result AuthHttpError (List Text)
  normalize_origins [] = ok []
  normalize_origins (origin ∷ origins) = do
    normalized ← normalize_origin origin
    allowed ← normalize_origins origins
    ok (normalized ∷ allowed)

  -- `TrustedOriginPolicy::new`
  unfoldable pub new_trusted_origin_policy : List Text → Result AuthHttpError TrustedOriginPolicy
  new_trusted_origin_policy origins = do
    allowed ← normalize_origins origins
    ok (record { allowed_origins = allowed; require_origin_or_referer = true })

  unfoldable pub is_trusted : TrustedOriginPolicy → Option Text → Option Text → Bool
  is_trusted policy (some origin) referer =
      is_ok_and (normalize_origin origin)
        (λ origin. any (λ allowed. text_eq allowed origin) policy.allowed_origins)
  is_trusted policy none (some referer) =
      is_ok_and (origin_from_url referer)
        (λ origin. any (λ allowed. text_eq allowed origin) policy.allowed_origins)
  is_trusted policy none none = not policy.require_origin_or_referer

  unfoldable pub require_trusted :
      TrustedOriginPolicy → Option Text → Option Text → Result AuthHttpError (Unit {0})
  require_trusted policy origin referer =
      if is_trusted policy origin referer then ok tt else err untrusted_origin
