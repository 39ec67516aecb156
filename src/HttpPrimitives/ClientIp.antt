-- ===== src/HttpPrimitives/ClientIp.antt =====
-- crates/http-primitives/src/lib.rs: the address of a client behind trusted proxies. The library's parsers
-- of addresses are parameters, and so are the headers of a request: a name gives the values of its
-- headers in their order, with `none` for one that is not text.
use mathlib.Core.List.{reverse}
use world_infra.Prelude.{
  Bool, true, false, not, Option, none, some, List, [], ◌∷◌, ◌++◌, map, retain, ◌||◌, if◌then◌else◌,
}
use world_infra.Text.{Text, codes, text_eq, trim, is_empty}
use world_infra.Text.Scan.{
  to_ascii_lowercase, starts_with, ends_with, split, split_once, strip_prefix, strip_suffix,
  parse_unsigned,
}
use world_infra.HttpPrimitives.Addresses.{IpAddr, Cidr, TrustedProxyConfig, is_trusted_proxy}

pub data HeaderClientIp : Type 0 where
  missing invalid : HeaderClientIp
  found : IpAddr → HeaderClientIp

-- `map_or(Invalid, Found)`
abbrev pub found_or_invalid : Option IpAddr → HeaderClientIp
found_or_invalid none = invalid
found_or_invalid (some addr) = found addr

unfoldable pub unquote_forwarded_value : Text → Option Text
unquote_forwarded_value value = elim (strip_prefix (codes "\"") value) [
  | some rest ↦ strip_suffix (codes "\"") rest
  | none ↦ if ends_with b'"' value then none else some value
]

-- The entries of a header from the last one to the first, without blank ones.
unfoldable pub entries : Text → List Text
entries value = retain (λ entry. not (is_empty entry)) (map trim (reverse (split b',' value)))

-- The loop over the entries; `saw_entry` tells whether there was one.
unfoldable pub walk : (Text → HeaderClientIp) → List Cidr → Bool → List Text → HeaderClientIp
walk parse_entry trusted_proxies saw_entry [] = if saw_entry then invalid else missing
walk parse_entry trusted_proxies saw_entry (entry ∷ rest) =
    let further = walk parse_entry trusted_proxies true rest in
    elim (parse_entry entry) [
      | missing ↦ invalid
      | invalid ↦ invalid
      | found addr ↦ if is_trusted_proxy addr trusted_proxies then further else found addr
    ]

-- `Option<&str>` header to the walk over its entries.
abbrev pub walk_header : (Text → HeaderClientIp) → List Cidr → Option Text → HeaderClientIp
walk_header parse_entry trusted_proxies none = missing
walk_header parse_entry trusted_proxies (some value) =
    walk parse_entry trusted_proxies false (entries value)

-- `str::parse::<IpAddr>`, and `str::parse::<SocketAddr>` with the address of the socket.
module _ (parse_ip parse_socket_ip : Text → Option IpAddr) where
  abbrev parse_plain : Text → Option IpAddr
  parse_plain value = elim (parse_ip value) [ some addr ↦ some addr | none ↦ parse_socket_ip value ]

  abbrev bracket_tail : Text → Text → Option IpAddr
  bracket_tail host tail =
      if is_empty tail then parse_ip host else elim (strip_prefix (codes ":") tail) [
        | none ↦ none
        | some port ↦ elim (parse_unsigned 65535 port) [ none ↦ none | some n ↦ parse_ip host ]
      ]

  abbrev parse_bracketed : Text → Option IpAddr
  parse_bracketed value = elim (split_once b']' value) [
    | none ↦ none
    | some halves ↦ elim (strip_prefix (codes "[") halves.0) [
      | none ↦ none
      | some host ↦
          if is_empty host || starts_with b'[' host then none else bracket_tail host halves.1
    ]
  ]

  unfoldable pub parse_ip_token : Text → Option IpAddr
  parse_ip_token value =
      let value = trim value in
      if starts_with b'"' value || ends_with b'"' value
      then none
      else if starts_with b'[' value
      then parse_bracketed value
      else parse_plain value

  -- The parts of an entry up to the first `for`.
  abbrev forwarded_parts : List Text → HeaderClientIp
  forwarded_parts [] = invalid
  forwarded_parts (part ∷ parts) =
      let further = forwarded_parts parts in
      elim (split_once b'=' (trim part)) [
        | none ↦ further
        | some halves ↦
            if text_eq (to_ascii_lowercase halves.0) (codes "for")
            then elim (unquote_forwarded_value (trim halves.1)) [
              | none ↦ invalid
              | some raw ↦ found_or_invalid (parse_ip_token raw)
            ]
            else further
      ]

  unfoldable pub parse_forwarded_entry : Text → HeaderClientIp
  parse_forwarded_entry entry = forwarded_parts (split b';' entry)

  unfoldable pub parse_forwarded_for : Option Text → List Cidr → HeaderClientIp
  parse_forwarded_for value trusted_proxies =
      walk_header parse_forwarded_entry trusted_proxies value

  unfoldable pub parse_x_forwarded_for : Option Text → List Cidr → HeaderClientIp
  parse_x_forwarded_for value trusted_proxies =
      walk_header (λ entry. found_or_invalid (parse_ip_token entry)) trusted_proxies value

  unfoldable pub parse_single_ip_header : Option Text → HeaderClientIp
  parse_single_ip_header none = missing
  parse_single_ip_header (some value) = found_or_invalid (parse_ip_token value)

  -- `Found` and `Invalid` are the answer, after `Missing` comes the next header.
  abbrev pub or_else : IpAddr → HeaderClientIp → IpAddr → IpAddr
  or_else peer (found addr) further = addr
  or_else peer invalid further = peer
  or_else peer missing further = further

  unfoldable pub extract_client_ip :
      IpAddr → List Cidr → Option Text → Option Text → Option Text → IpAddr
  extract_client_ip peer trusted_proxies forwarded x_forwarded_for x_real_ip =
      if not (is_trusted_proxy peer trusted_proxies)
      then peer
      else or_else peer (parse_forwarded_for forwarded trusted_proxies) (
          or_else peer (parse_x_forwarded_for x_forwarded_for trusted_proxies)
            (or_else peer (parse_single_ip_header x_real_ip) peer))

  abbrev pub client_ip_from_headers :
      IpAddr → TrustedProxyConfig → Option Text → Option Text → Option Text → IpAddr
  client_ip_from_headers peer config = extract_client_ip peer config.trusted_proxies

-- A value that is not text.
abbrev header_text : Option Text → Text
header_text none = codes "__invalid_header_value__"
header_text (some value) = value

unfoldable pub join_further : Text → List (Option Text) → Text
join_further joined [] = joined
join_further joined (value ∷ values) = join_further (joined ++ (b',' ∷ header_text value)) values

unfoldable pub joined_header_values : (Text → List (Option Text)) → Text → Option Text
joined_header_values headers name = elim (headers name) [
  | [] ↦ none
  | first ∷ values ↦ some (join_further (header_text first) values)
]

unfoldable pub client_ip_from_header_map :
    (parse_ip parse_socket_ip : Text → Option IpAddr)
    → (Text → List (Option Text))
    → IpAddr
    → TrustedProxyConfig
    → IpAddr
client_ip_from_header_map parse_ip parse_socket_ip headers peer config =
    client_ip_from_headers parse_ip parse_socket_ip peer config
      (joined_header_values headers (codes "forwarded"))
      (joined_header_values headers (codes "x-forwarded-for"))
      (joined_header_values headers (codes "x-real-ip"))
