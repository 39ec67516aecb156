-- ===== src/AuthHttp.antt =====
-- crates/auth-http-core/src/lib.rs: refresh cookies, with the checks of their parts and the two headers
-- that set and clear them.
pub mod Origins
mod Cookies
mod OriginLaws
mod Tests
use world_infra.Prelude.{
  ℕ, ◌+◌, ◌-◌, ◌/◌, ◌%◌, ◌^◌, min, max, Bool, true, false, not, ◌&&◌, ◌||◌, Option, none, some,
  is_some, List, [], ◌∷◌, ◌++◌, any, all, leb, ltb, ◌==◌, Result, ok, err, fail_if, ◌>>=◌, ◌>>◌,
  if◌then◌else◌,
}
use world_infra.Text.{Text, codes, text_eq, byte_length, is_ascii_alphanumeric, trim, is_empty}
use world_infra.Text.Decimal.{decimal}
use world_infra.Text.Scan.{
  is_ascii_digit, is_ascii_lowercase, is_ascii_uppercase, starts_with, ends_with, split,
  strip_prefix, contains,
}

pub data AuthHttpError : Type 0 where
  invalid_cookie_name invalid_cookie_value invalid_cookie_domain : AuthHttpError
  invalid_cookie_path invalid_host_prefix_cookie untrusted_origin : AuthHttpError

pub data SameSite : Type 0 where
  lax strict same_site_none : SameSite

abbrev pub as_str : SameSite → Text
as_str lax = codes "Lax"
as_str strict = codes "Strict"
as_str same_site_none = codes "None"

-- Characters past ASCII have bytes of 128 and more.
abbrev pub is_ascii : ℕ → Bool
is_ascii byte = leb byte 0x7f

abbrev pub is_ascii_control : ℕ → Bool
is_ascii_control byte = leb byte 0x1f || byte == 0x7f

abbrev pub is_ascii_whitespace : ℕ → Bool
is_ascii_whitespace byte =
    byte == 0x20 || (byte == 0x9 || (byte == 0xa || (byte == 0xc || byte == 0xd)))

abbrev pub is_name_byte : ℕ → Bool
is_name_byte byte =
    (is_ascii_digit byte || (is_ascii_uppercase byte || is_ascii_lowercase byte))
    || ((leb b'#' byte && leb byte b'\'')
        || (byte == b'!'
            || (byte == b'*'
                || (byte == b'+'
                    || (byte == b'-'
                        || (byte == b'.'
                            || (byte == b'^'
                                || (byte == b'_'
                                    || (byte == b'`' || (byte == b'|' || byte == b'~'))))))))))

unfoldable pub validate_cookie_name : Text → Result AuthHttpError (Unit {0})
validate_cookie_name name =
    fail_if
      (is_empty name || ltb 128 (byte_length name) || any (λ byte. not (is_name_byte byte)) name)
      invalid_cookie_name

abbrev pub is_unsafe_value_byte : ℕ → Bool
is_unsafe_value_byte byte =
    not (is_ascii byte)
    || (is_ascii_control byte
        || (is_ascii_whitespace byte
            || (byte == b'"' || (byte == b';' || (byte == b',' || byte == b'\\')))))

unfoldable pub validate_cookie_value : Text → Result AuthHttpError (Unit {0})
validate_cookie_value value =
    fail_if (is_empty value || any is_unsafe_value_byte value) invalid_cookie_value

abbrev pub is_unsafe_path_byte : ℕ → Bool
is_unsafe_path_byte byte = not (is_ascii byte) || (is_ascii_control byte || byte == b';')

unfoldable pub validate_cookie_path : Text → Result AuthHttpError (Unit {0})
validate_cookie_path path =
    fail_if (not (starts_with b'/' path) || any is_unsafe_path_byte path) invalid_cookie_path

abbrev pub is_label_byte : ℕ → Bool
is_label_byte byte = is_ascii_alphanumeric byte || byte == b'-'

unfoldable pub valid_cookie_domain_label : Text → Bool
valid_cookie_domain_label label =
    (not (is_empty label)
      && (leb (byte_length label) 63
          && (not (starts_with b'-' label) && not (ends_with b'-' label))))
    && all is_label_byte label

unfoldable pub validate_cookie_domain : Text → Result AuthHttpError (Unit {0})
validate_cookie_domain domain = do
  fail_if (not (text_eq (trim domain) domain)) invalid_cookie_domain
  fail_if
      (is_empty domain
        || starts_with b'.' domain
        || ends_with b'.' domain
        || contains (codes "..") domain
        || not (all valid_cookie_domain_label (split b'.' domain)))
      invalid_cookie_domain

pub record RefreshCookieConfig : Type 0 where
  pub name : Text
  pub path : Text
  pub domain : Option Text
  pub secure : Bool
  pub http_only : Bool
  pub same_site : SameSite
  pub max_age : ℕ

unfoldable pub validate_domain : Option Text → Result AuthHttpError (Unit {0})
validate_domain none = ok tt
validate_domain (some domain) = validate_cookie_domain domain

abbrev pub is_none_site : SameSite → Bool
is_none_site same_site_none = true
is_none_site _ = false

-- `RefreshCookieConfig::validate`
unfoldable pub validate_cookie : RefreshCookieConfig → Result AuthHttpError (Unit {0})
validate_cookie config = do
  validate_cookie_name config.name
  validate_cookie_path config.path
  validate_domain config.domain
  fail_if
      (is_some (strip_prefix (codes "__Host-") config.name)
        && (not config.secure || (not (text_eq config.path (codes "/")) || is_some config.domain)))
      invalid_host_prefix_cookie
  fail_if (is_none_site config.same_site && not config.secure) invalid_cookie_value

abbrev pub host_prefix_config : Text → ℕ → RefreshCookieConfig
host_prefix_config name max_age = record {
  name = name;
  path = codes "/";
  domain = none;
  secure = true;
  http_only = true;
  same_site = lax;
  max_age = max_age;
}

unfoldable pub host_prefix : Text → ℕ → Result AuthHttpError RefreshCookieConfig
host_prefix name max_age = do
  fail_if (not (is_some (strip_prefix (codes "__Host-") name))) invalid_host_prefix_cookie
  validate_cookie (host_prefix_config name max_age)
  ok (host_prefix_config name max_age)

-- Seconds, rounded up, at least one; a duration is its number of nanoseconds.
unfoldable pub duration_secs : ℕ → ℕ
duration_secs duration =
    max
      (min (duration / 1_000_000_000 + (if duration % 1_000_000_000 == 0 then 0 else 1))
        (2 ^ 64 - 1))
      1

abbrev pub domain_attribute : Option Text → Text
domain_attribute none = []
domain_attribute (some domain) = codes "; Domain=" ++ domain

-- What both headers have behind the age.
unfoldable pub end_of_cookie : RefreshCookieConfig → Text
end_of_cookie config =
    domain_attribute config.domain
    ++ ((if config.http_only then codes "; HttpOnly" else [])
        ++ ((if config.secure then codes "; Secure" else [])
            ++ (codes "; SameSite=" ++ as_str config.same_site)))

unfoldable pub build_set_cookie : RefreshCookieConfig → Text → Result AuthHttpError Text
build_set_cookie config value = do
  validate_cookie config
  validate_cookie_value value
  ok (
      config.name
      ++ (codes "="
          ++ (value
              ++ (codes "; Path="
                  ++ (config.path
                      ++ (codes "; Max-Age="
                          ++ (decimal (duration_secs config.max_age) ++ end_of_cookie config)))))))

unfoldable pub build_clear_cookie : RefreshCookieConfig → Result AuthHttpError Text
build_clear_cookie config = do
  validate_cookie config
  ok (
      config.name
      ++ (codes "=; Path="
          ++ (config.path
              ++ (codes "; Max-Age=0; Expires=Thu, 01 Jan 1970 00:00:00 GMT"
                  ++ end_of_cookie config))))
