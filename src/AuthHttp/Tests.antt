-- ===== src/AuthHttp/Tests.antt =====
-- Tests and examples for the cookies and the origins of crates/auth-http-core/src/lib.rs.
use world_infra.Prelude.{◌≡◌, refl, true, [], ◌∷◌, any, all, Option, none, some, ok, err}
use world_infra.Text.{Text, codes, text_eq, trim, trim_start, is_whitespace, is_ascii_alphanumeric}
use world_infra.Text.Scan.{split, strip_prefix, split_once, split_scheme}
use world_infra.Text.Decimal.{decimal}
use world_infra.AuthHttp.{
  RefreshCookieConfig, host_prefix_config, build_set_cookie, build_clear_cookie, validate_cookie,
  validate_cookie_name, validate_cookie_path, validate_cookie_value, validate_domain, duration_secs,
  end_of_cookie, invalid_cookie_value, valid_cookie_domain_label,
}
use world_infra.AuthHttp.Origins.{
  IpAddr, TrustedOriginPolicy, new_trusted_origin_policy, normalize_origins, normalize_origin,
  is_trusted, validate_authority, split_host_port, plain_host_port, validate_host, validate_name,
  validate_labels,
}
use world_infra.AuthHttp.OriginLaws.{IsOrigin, is_trusted-configured}
use world_infra.AuthHttp.Cookies.{is_part_char, attributes, build_set_cookie-split}

abbrev session : RefreshCookieConfig
session = host_prefix_config (codes "__Host-session") 90_000_000_000

session_header :
    build_set_cookie session (codes "abc")
    ≡ ok (codes "__Host-session=abc; Path=/; Max-Age=90; HttpOnly; Secure; SameSite=Lax")
unfolding build_set_cookie validate_cookie validate_cookie_name validate_cookie_path validate_domain
    strip_prefix validate_cookie_value decimal duration_secs end_of_cookie
session_header = refl

no_semicolon : build_set_cookie session (codes "a;b") ≡ err invalid_cookie_value
unfolding build_set_cookie validate_cookie validate_cookie_name validate_cookie_path validate_domain
    strip_prefix validate_cookie_value
no_semicolon = refl

build_set_cookie-split_example :
    (split b';' (codes "__Host-session=abc; Path=/; Max-Age=90; HttpOnly; Secure; SameSite=Lax")
      ≡ codes "__Host-session=abc" ∷ attributes session)
    × (all (all is_part_char) (codes "__Host-session=abc" ∷ attributes session) ≡ true)
build_set_cookie-split_example =
    build_set_cookie-split session (codes "abc")
      (codes "__Host-session=abc; Path=/; Max-Age=90; HttpOnly; Secure; SameSite=Lax")
      session_header

-- The cookie is cleared with the same attributes.
cleared_header :
    build_clear_cookie session
    ≡ ok (
        codes
          "__Host-session=; Path=/; Max-Age=0; Expires=Thu, 01 Jan 1970 00:00:00 GMT; HttpOnly; Secure; SameSite=Lax")
unfolding build_clear_cookie validate_cookie validate_cookie_name validate_cookie_path
    validate_domain strip_prefix end_of_cookie
cleared_header = refl

-- No address is read in these examples.
abbrev no_ip : Text → Option IpAddr
no_ip text = none

abbrev app_policy : TrustedOriginPolicy
app_policy = record {
  allowed_origins = codes "https://app.example" ∷ [];
  require_origin_or_referer = true;
}

app_made : new_trusted_origin_policy no_ip (codes " https://App.example" ∷ []) ≡ ok app_policy
unfolding new_trusted_origin_policy normalize_origins normalize_origin trim trim_start is_whitespace
    split_scheme strip_prefix validate_authority split_host_port plain_host_port split_once
    validate_host validate_name validate_labels split valid_cookie_domain_label
    is_ascii_alphanumeric
app_made = refl

app_trusted : is_trusted no_ip app_policy (some (codes "HTTPS://app.example")) none ≡ true
unfolding is_trusted normalize_origin trim trim_start is_whitespace split_scheme strip_prefix
    validate_authority split_host_port plain_host_port split_once validate_host validate_name
    validate_labels split valid_cookie_domain_label is_ascii_alphanumeric
app_trusted = refl

is_trusted-configured_example :
    (normal : Text) × (normalize_origin no_ip (codes "HTTPS://app.example") ≡ ok normal)
    × IsOrigin normal
    × (configured : Text) × (any (λ o. text_eq o configured) (codes " https://App.example" ∷ [])
        ≡ true)
    × (normalize_origin no_ip configured ≡ ok normal)
is_trusted-configured_example =
    is_trusted-configured no_ip (codes " https://App.example" ∷ []) app_policy
      (codes "HTTPS://app.example") none app_made app_trusted
