-- ===== src/HttpPrimitives/Addresses.antt =====
-- crates/http-primitives/src/lib.rs: networks of addresses and the configuration of trusted proxies.
-- An address is its number, as `u32::from` and `u128::from` give it. The library's parsers of addresses
-- are parameters.
use Prim.Native.Nat.{bit_and}
use world_infra.Prelude.{
  ℕ, ◌-◌, ◌*◌, ◌%◌, ◌^◌, Bool, false, Option, List, [], ◌∷◌, any, not, map, retain, ltb, ◌==◌,
  Result, ok, fail_if, ok_or, ◌>>=◌, ◌>>◌, if◌then◌else◌,
}
use world_infra.Text.{Text, trim, is_empty}
use world_infra.Text.Scan.{split, split_once, parse_unsigned}
use world_infra.HttpPrimitives.{HttpPrimitiveError, invalid_cidr, invalid_ip}

pub data IpAddr : Type 0 where
  v4 v6 : ℕ → IpAddr

pub record Cidr : Type 0 where
  pub addr : IpAddr
  pub prefix : ℕ

abbrev pub max_prefix : IpAddr → ℕ
max_prefix (v4 network) = 32
max_prefix (v6 network) = 128

abbrev pub single_ip : IpAddr → Cidr
single_ip addr = record { addr = addr; prefix = max_prefix addr }

-- `u32::MAX << (32 - prefix)`, and the same for `u128`.
unfoldable pub mask : ℕ → ℕ → ℕ
mask width prefix = if prefix == 0 then 0 else (2 ^ width - 1) * 2 ^ (width - prefix) % 2 ^ width

unfoldable pub contains_from : IpAddr → ℕ → IpAddr → Bool
contains_from (v4 network) prefix (v4 addr) =
    bit_and network (mask 32 prefix) == bit_and addr (mask 32 prefix)
contains_from (v6 network) prefix (v6 addr) =
    bit_and network (mask 128 prefix) == bit_and addr (mask 128 prefix)
contains_from (v4 network) prefix (v6 addr) = false
contains_from (v6 network) prefix (v4 addr) = false

-- `Cidr::contains`
abbrev pub contains_addr : Cidr → IpAddr → Bool
contains_addr cidr addr = contains_from cidr.addr cidr.prefix addr

pub record TrustedProxyConfig : Type 0 where
  pub trusted_proxies : List Cidr

abbrev pub single_peer : IpAddr → TrustedProxyConfig
single_peer peer = record { trusted_proxies = single_ip peer ∷ [] }

abbrev pub is_trusted_proxy : IpAddr → List Cidr → Bool
is_trusted_proxy addr trusted_proxies = any (λ proxy. contains_addr proxy addr) trusted_proxies

abbrev pub trusts_peer : TrustedProxyConfig → IpAddr → Bool
trusts_peer config peer = any (λ proxy. contains_addr proxy peer) config.trusted_proxies

-- The parts of a comma-separated list that are not blank.
abbrev pub items : Text → List Text
items value = retain (λ item. not (is_empty item)) (map trim (split b',' value))

-- `map(..).collect()` of results
unfoldable pub collect :
    {A : Type 0}
    → (Text → Result HttpPrimitiveError A)
    → List Text
    → Result HttpPrimitiveError (List A)
collect parse [] = ok []
collect parse (item ∷ items) = do first ← parse item; rest ← collect parse items; ok (first ∷ rest)

module _ (parse_ip : Text → Option IpAddr) where
  -- `Cidr::parse`
  unfoldable pub parse_cidr : Text → Result HttpPrimitiveError Cidr
  parse_cidr value = do
    halves ← ok_or (split_once b'/' (trim value)) invalid_cidr
    addr ← ok_or (parse_ip halves.0) invalid_ip
    prefix ← ok_or (parse_unsigned 255 halves.1) invalid_cidr
    fail_if (ltb (max_prefix addr) prefix) invalid_cidr
    ok (record { addr = addr; prefix = prefix })

  unfoldable pub parse_trusted_proxies : Text → Result HttpPrimitiveError (List Cidr)
  parse_trusted_proxies value = collect parse_cidr (items value)

  -- `TrustedProxyConfig::parse`
  unfoldable pub parse_config : Text → Result HttpPrimitiveError TrustedProxyConfig
  parse_config value = do
    proxies ← parse_trusted_proxies value
    ok (record { trusted_proxies = proxies })
