-- ===== src/HttpPrimitives/TrustedProxies.antt =====
-- The trusted proxies that crates/http-primitives/src/lib.rs reads from a list of networks.
use world_infra.Prelude.{
  ◌≤◌, ◌≡◌, refl, ◌↔◌, ◌⊎◌, inl, inr, true, Bool-cases, Option, some, List, [], ◌∷◌, All, any, ltb,
  ok, ok_or, IfOk, IfOk-bind, IfOk-guard, IfOk-ok, IfOk-of, arith,
}
use world_infra.Text.{Text, trim}
use world_infra.Text.Scan.{split_once, parse_unsigned}
use world_infra.HttpPrimitives.{invalid_cidr, invalid_ip}
use world_infra.HttpPrimitives.Addresses.{
  IpAddr, Cidr, max_prefix, contains_addr, TrustedProxyConfig, trusts_peer, items, collect,
  parse_cidr, parse_trusted_proxies, parse_config,
}
use world_infra.HttpPrimitives.Prefixes.{IsAddress, SharesPrefix, contains_addr_iff}

abbrev IsCidr : Cidr → Type 0
IsCidr cidr = IsAddress cidr.addr × (cidr.prefix ≤ max_prefix cidr.addr)

-- One of the networks begins with the same bits as the address.
abbrev pub SharesSomePrefix : List Cidr → IpAddr → Type 0
SharesSomePrefix [] addr = ⊥
SharesSomePrefix (cidr ∷ cidrs) addr =
    SharesPrefix cidr.prefix cidr.addr addr ⊎ SharesSomePrefix cidrs addr

any_iff :
    (cidrs : List Cidr) (addr : IpAddr)
    → All IsCidr cidrs
    → IsAddress addr
    → (any (λ cidr. contains_addr cidr addr) cidrs ≡ true) ↔ SharesSomePrefix cidrs addr
any_iff [] addr h k = ((λ e. cc), (λ e. absurd e))
any_iff (cidr ∷ cidrs) addr (valid, h) k =
    let here = contains_addr_iff cidr addr valid.1 valid.0 k in
    let there = any_iff cidrs addr h k in
    elim (Bool-cases (contains_addr cidr addr)) [
      | inl inside ↦ ((λ e. inl (here.0 inside)), (λ e. rw inside refl))
      | inr outside ↦ rw outside (
        (λ e. inr (there.0 e)),
        (λ e. elim e [
          | inl same ↦ absurd (ground (arith, outside, here.1 same))
          | inr further ↦ there.1 further
        ]),
      )
    ]

module _ (parse_ip : Text → Option IpAddr)
    (parsed_IsAddress : (text : Text) (addr : IpAddr)
      → parse_ip text ≡ some addr
      → IsAddress addr) where
  parse_cidr-IsCidr : (value : Text) → IfOk IsCidr (parse_cidr parse_ip value)
  unfolding parse_cidr
  parse_cidr-IsCidr value =
      IfOk-bind IsCidr (ok_or (split_once b'/' (trim value)) invalid_cidr) _ (λ halves e.
        IfOk-bind IsCidr (ok_or (parse_ip halves.0) invalid_ip) _ (λ addr f.
          IfOk-bind IsCidr (ok_or (parse_unsigned 255 halves.1) invalid_cidr) _ (λ prefix g.
            IfOk-guard IsCidr (ltb (max_prefix addr) prefix) invalid_cidr _ (λ fits.
              IfOk-of IsCidr _ (record { addr = addr; prefix = prefix }) refl
                (parsed_IsAddress halves.0 addr (ground (arith, f)), ground (arith, fits))))))

  collect-AreCidrs : (items : List Text) → IfOk (All IsCidr) (collect (parse_cidr parse_ip) items)
  unfolding collect
  collect-AreCidrs [] = IfOk-of (All IsCidr) _ [] refl tt
  collect-AreCidrs (item ∷ items) = IfOk-bind (All IsCidr) (parse_cidr parse_ip item) _ (λ cidr e.
      IfOk-bind (All IsCidr) (collect (parse_cidr parse_ip) items) _ (λ cidrs f.
        IfOk-of (All IsCidr) _ (cidr ∷ cidrs) refl (
          IfOk-ok IsCidr _ cidr (parse_cidr-IsCidr item) e,
          IfOk-ok (All IsCidr) _ cidrs (collect-AreCidrs items) f,
        )))

  config-AreCidrs :
      (value : Text)
      → IfOk (λ config. All IsCidr config.trusted_proxies) (parse_config parse_ip value)
  unfolding parse_config parse_trusted_proxies
  config-AreCidrs value = IfOk-bind _ (collect (parse_cidr parse_ip) (items value)) _ (λ proxies e.
      IfOk-of _ _ (record { trusted_proxies = proxies }) refl
        (IfOk-ok (All IsCidr) _ proxies (collect-AreCidrs (items value)) e))

  -- A configuration that is read from a list of networks trusts a peer exactly when the peer is of the
  -- version of one of the networks and begins with the same bits, as many as its prefix has. The parser of
  -- addresses gives numbers of the width of their version.
  pub parse_config-trusts_peer :
      (value : Text) (config : TrustedProxyConfig) (peer : IpAddr)
      → parse_config parse_ip value ≡ ok config
      → IsAddress peer
      → (trusts_peer config peer ≡ true) ↔ SharesSomePrefix config.trusted_proxies peer
  parse_config-trusts_peer value config peer h k =
      any_iff config.trusted_proxies peer
        (IfOk-ok (λ config. All IsCidr config.trusted_proxies) _ config (config-AreCidrs value) h) k
