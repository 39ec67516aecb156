-- ===== src/HttpPrimitives/Origins.antt =====
-- crates/http-primitives/src/lib.rs: origins. The library's parser of addresses of version 6 is a parameter.
use world_infra.Prelude.{
  ℕ, Bool, not, Option, none, some, is_some, List, any, all, leb, ◌==◌, ◌&&◌, ◌||◌, Result, ok, err,
  fail_if, ok_or, ◌>>=◌, ◌>>◌, if◌then◌else◌,
}
use world_infra.Text.{Text, codes, text_eq, byte_length, is_ascii_alphanumeric, trim, is_empty}
use world_infra.Text.Scan.{
  to_ascii_lowercase, starts_with, ends_with, split, split_once, strip_prefix, contains,
  parse_unsigned, split_scheme, rsplit_once,
}
use world_infra.HttpPrimitives.{HttpPrimitiveError, invalid_origin}
use world_infra.HttpPrimitives.Addresses.{items, collect}

pub record Origin : Type 0 where
  pub scheme : Text
  pub host : Text
  pub port : Option ℕ

abbrev pub is_local : Origin → Bool
is_local origin =
    text_eq origin.host (codes "localhost")
    || (text_eq origin.host (codes "127.0.0.1") || text_eq origin.host (codes "::1"))

unfoldable pub valid_origin_host_label : Text → Bool
valid_origin_host_label label =
    (not (is_empty label)
      && (leb (byte_length label) 63
          && (not (starts_with b'-' label) && not (ends_with b'-' label))))
    && all (λ byte. is_ascii_alphanumeric byte || byte == b'-') label

unfoldable pub valid_unbracketed_origin_host : Text → Bool
valid_unbracketed_origin_host host =
    (not (is_empty host)
      && (not (starts_with b'.' host)
          && (not (ends_with b'.' host) && not (contains (codes "..") host))))
    && all valid_origin_host_label (split b'.' host)

unfoldable pub parse_origin_port : Text → Result HttpPrimitiveError ℕ
parse_origin_port port = do
  port ← ok_or (parse_unsigned 65535 port) invalid_origin
  fail_if (port == 0) invalid_origin
  ok port

abbrev pub is_web_scheme : Text → Bool
is_web_scheme scheme =
    text_eq scheme (codes "http")
    || (text_eq scheme (codes "https")
        || (text_eq scheme (codes "ws") || text_eq scheme (codes "wss")))

-- The port behind a bracket.
unfoldable pub bracket_port : Text → Result HttpPrimitiveError (Option ℕ)
bracket_port tail = if is_empty tail then ok none else (do
  port ← ok_or (strip_prefix (codes ":") tail) invalid_origin
  port ← parse_origin_port port
  ok (some port))

module _ (parse_v6 : Text → Option ℕ) where
  unfoldable pub bracketed_host_port : Text → Result HttpPrimitiveError (Text × Option ℕ)
  bracketed_host_port value = do
    halves ← ok_or (split_once b']' value) invalid_origin
    port ← bracket_port halves.1
    host ← ok_or (strip_prefix (codes "[") halves.0) invalid_origin
    fail_if (is_empty host || (starts_with b'[' host || not (is_some (parse_v6 host))))
        invalid_origin
    ok (host, port)

  -- The last colon ends the host.
  unfoldable pub colon_host_port : Text → Text → Text → Result HttpPrimitiveError (Text × Option ℕ)
  colon_host_port value host port =
      if any (λ c. c == b':') host
      then (if is_some (parse_v6 value) then ok (value, none) else err invalid_origin)
      else (do
        fail_if (not (valid_unbracketed_origin_host host)) invalid_origin
        port ← parse_origin_port port
        ok (host, some port))

  unfoldable pub plain_host_port : Text → Result HttpPrimitiveError (Text × Option ℕ)
  plain_host_port value = elim (rsplit_once b':' value) [
    | some halves ↦ colon_host_port value halves.0 halves.1
    | none ↦ fail_if (not (valid_unbracketed_origin_host value)) invalid_origin >> ok (value, none)
  ]

  unfoldable pub parse_host_port : Text → Result HttpPrimitiveError (Text × Option ℕ)
  parse_host_port value =
      if starts_with b'[' value then bracketed_host_port value else plain_host_port value

  -- `Origin::parse`
  unfoldable pub parse_origin : Text → Result HttpPrimitiveError Origin
  parse_origin value = do
    halves ← ok_or (split_scheme (trim value)) invalid_origin
    let scheme = to_ascii_lowercase halves.0
    fail_if (not (is_web_scheme scheme)) invalid_origin
    fail_if (is_empty halves.1 || any (λ c. c == b'/') halves.1) invalid_origin
    parts ← parse_host_port halves.1
    ok (record { scheme = scheme; host = to_ascii_lowercase parts.0; port = parts.1 })

  unfoldable pub parse_allowed_origins : Text → Result HttpPrimitiveError (List Origin)
  parse_allowed_origins value = collect parse_origin (items value)
