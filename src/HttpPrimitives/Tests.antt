-- ===== src/HttpPrimitives/Tests.antt =====
-- Tests and examples for crates/http-primitives/src/lib.rs. The parsers of addresses know a few texts.
use world_infra.Prelude.{
  ◌≡◌, refl, subst, ◌↔◌, Bool, true, false, not, ◌||◌, Option, none, some, List, [], ◌∷◌, All,
  if◌then◌else◌, ok, err, arith,
}
use world_infra.Text.{
  Text, codes, text_eq, trim, trim_start, is_whitespace, is_control, is_ascii_alphanumeric,
}
use world_infra.Text.Scan.{
  split, split_once, split_scheme, strip_prefix, rsplit_once, parse_unsigned, parse_digits,
}
use world_infra.HttpPrimitives.{new_request_id, empty}
use world_infra.HttpPrimitives.Addresses.{
  IpAddr, v4, v6, Cidr, mask, contains_from, is_trusted_proxy, trusts_peer, collect, parse_cidr,
  parse_trusted_proxies, parse_config,
}
use world_infra.HttpPrimitives.Origins.{
  Origin, parse_allowed_origins, parse_origin, parse_host_port, plain_host_port, colon_host_port,
  valid_unbracketed_origin_host, valid_origin_host_label, parse_origin_port,
}
use world_infra.HttpPrimitives.OriginLaws.{IsOrigin, parse_allowed_origins-AreOrigins}
use world_infra.HttpPrimitives.ClientIp.{
  found, entries, walk, parse_ip_token, parse_forwarded_entry, parse_forwarded_for,
  parse_x_forwarded_for, found_or_invalid, extract_client_ip, joined_header_values, join_further,
  client_ip_from_header_map,
}
use world_infra.HttpPrimitives.PublicBind.{is_public_bind}
use world_infra.HttpPrimitives.Prefixes.{IsAddress}
use world_infra.HttpPrimitives.Chains.{
  LeadsFromRight, parse_forwarded_for_iff, extract_client_ip-append,
}
use world_infra.HttpPrimitives.TrustedProxies.{SharesSomePrefix, parse_config-trusts_peer}
use world_infra.HttpPrimitives.BlocksV6.{is_special, is_unspecified, is_public_bind-is_special}

-- 10.0.0.1, 10.0.0.2, 203.0.113.9 and 8.8.8.8
abbrev known_ip : Text → Option IpAddr
known_ip text =
    if text_eq text (codes "10.0.0.1")
    then some (v4 0x0a000001)
    else if text_eq text (codes "10.0.0.0")
    then some (v4 0x0a000000)
    else if text_eq text (codes "8.8.8.8")
    then some (v4 0x08080808)
    else none

abbrev no_socket : Text → Option IpAddr
no_socket text = none

abbrev proxies : List Cidr
proxies = record { addr = v4 0x0a000000; prefix = 8 } ∷ []

chain_found :
    parse_x_forwarded_for known_ip no_socket (some (codes "8.8.8.8, 10.0.0.1")) proxies
    ≡ found (v4 0x08080808)
unfolding parse_x_forwarded_for walk entries split trim trim_start is_whitespace parse_ip_token
    contains_from mask
chain_found = refl

extract_client_ip-append_example :
    extract_client_ip known_ip no_socket
      (v4 0x0a000001)
      proxies
      none
      (some (codes "1.2.3.4,8.8.8.8, 10.0.0.1"))
      none
    ≡ (if is_trusted_proxy (v4 0x0a000001) proxies then v4 0x08080808 else v4 0x0a000001)
extract_client_ip-append_example =
    extract_client_ip-append known_ip no_socket (v4 0x0a000001) (v4 0x08080808) proxies
      (codes "1.2.3.4") (codes "8.8.8.8, 10.0.0.1") none chain_found

parse_forwarded_for_iff_example :
    ((parse_forwarded_for known_ip no_socket (some (codes "for=8.8.8.8, for=10.0.0.1")) proxies
        ≡ found (v4 0x08080808))
      ↔ LeadsFromRight
          (parse_forwarded_entry known_ip no_socket)
          proxies
          (split b',' (codes "for=8.8.8.8, for=10.0.0.1"))
          (v4 0x08080808))
    × ((parse_x_forwarded_for known_ip no_socket (some (codes "for=8.8.8.8, for=10.0.0.1")) proxies
          ≡ found (v4 0x08080808))
        ↔ LeadsFromRight
            (λ entry. found_or_invalid (parse_ip_token known_ip no_socket entry))
            proxies
            (split b',' (codes "for=8.8.8.8, for=10.0.0.1"))
            (v4 0x08080808))
parse_forwarded_for_iff_example =
    parse_forwarded_for_iff known_ip no_socket (codes "for=8.8.8.8, for=10.0.0.1") proxies
      (v4 0x08080808)

is_public_bind-is_special_example :
    is_public_bind (v6 0x20010db8000000000000000000000001)
    ≡ is_unspecified (v6 0x20010db8000000000000000000000001)
      || not (is_special (v6 0x20010db8000000000000000000000001))
is_public_bind-is_special_example =
    is_public_bind-is_special (v6 0x20010db8000000000000000000000001) (omega arith)

abbrev IsWide : Option IpAddr → Type 0
IsWide none = Unit
IsWide (some addr) = IsAddress addr

known_ip-IsWide :
    (a b c : Bool)
    → IsWide (
        if a
        then some (v4 0x0a000001)
        else if b
        then some (v4 0x0a000000)
        else if c
        then some (v4 0x08080808)
        else none)
known_ip-IsWide true b c = omega arith
known_ip-IsWide false true c = omega arith
known_ip-IsWide false false true = omega arith
known_ip-IsWide false false false = tt

known_ip-IsAddress : (text : Text) (addr : IpAddr) → known_ip text ≡ some addr → IsAddress addr
known_ip-IsAddress text addr h = subst IsWide h (
    known_ip-IsWide (text_eq text (codes "10.0.0.1")) (text_eq text (codes "10.0.0.0"))
      (text_eq text (codes "8.8.8.8")))

abbrev app_origin : Origin
app_origin = record { scheme = codes "https"; host = codes "app.example"; port = some 8443 }

origins_read :
    parse_allowed_origins (λ text. none) (codes "https://App.example:8443,") ≡ ok (app_origin ∷ [])
unfolding parse_allowed_origins collect split trim trim_start is_whitespace parse_origin
    split_scheme strip_prefix parse_host_port plain_host_port rsplit_once split_once colon_host_port
    valid_unbracketed_origin_host valid_origin_host_label is_ascii_alphanumeric parse_origin_port
    parse_unsigned parse_digits
origins_read = refl

parse_allowed_origins-AreOrigins_example : All IsOrigin (app_origin ∷ [])
parse_allowed_origins-AreOrigins_example =
    parse_allowed_origins-AreOrigins (λ text. none) (codes "https://App.example:8443,")
      (app_origin ∷ []) origins_read

config_read : parse_config known_ip (codes "10.0.0.0/8") ≡ ok (record { trusted_proxies = proxies })
unfolding parse_config parse_trusted_proxies collect split trim trim_start is_whitespace parse_cidr
    split_once parse_unsigned parse_digits
config_read = refl

parse_config-trusts_peer_example :
    (trusts_peer (record { trusted_proxies = proxies }) (v4 0x0a000001) ≡ true)
    ↔ SharesSomePrefix proxies (v4 0x0a000001)
parse_config-trusts_peer_example =
    parse_config-trusts_peer known_ip known_ip-IsAddress (codes "10.0.0.0/8")
      (record { trusted_proxies = proxies }) (v4 0x0a000001) config_read (omega arith)

blank_request_id : new_request_id (codes "  ") ≡ err empty
unfolding new_request_id is_control trim trim_start is_whitespace
blank_request_id = refl

abbrev two_headers : Text → List (Option Text)
two_headers name =
    if text_eq name (codes "x-forwarded-for")
    then some (codes "8.8.8.8") ∷ some (codes "10.0.0.1") ∷ []
    else []

-- Repeated headers are one chain.
repeated_headers :
    client_ip_from_header_map known_ip no_socket two_headers
      (v4 0x0a000001)
      (record { trusted_proxies = proxies })
    ≡ v4 0x08080808
unfolding client_ip_from_header_map extract_client_ip contains_from mask parse_forwarded_for
    joined_header_values parse_x_forwarded_for walk entries split join_further trim trim_start
    is_whitespace parse_ip_token
repeated_headers = refl
