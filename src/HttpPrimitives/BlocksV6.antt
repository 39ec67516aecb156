-- ===== src/HttpPrimitives/BlocksV6.antt =====
-- The addresses of version 6 that are not public in crates/http-primitives/src/lib.rs, as a table of networks, and
-- both tables together.
use world_infra.Prelude.{
  ℕ, ◌+◌, ◌-◌, ◌*◌, ◌/◌, ◌%◌, ◌^◌, ◌≤◌, ◌<◌, ◌≡◌, refl, ap, ◌↔◌, Bool, true, not, ◌||◌, List, [],
  ◌∷◌, any, ◌==◌, Bool-cases, inl, inr, arith, if◌then◌else◌,
}
use world_infra.Prelude.Bits.{bit_and-leading}
use world_infra.HttpPrimitives.Addresses.{IpAddr, v4, v6, Cidr, contains_addr, contains_from}
use world_infra.HttpPrimitives.PublicBind.{
  is_public_unicast_v6, is_public_bind, is_ipv4_mapped, first_segment, is_multicast_v6,
  is_unique_local_v6, is_unicast_link_local_v6, is_site_local_v6, is_documentation_v6,
}
use world_infra.HttpPrimitives.Prefixes.{IsAddress, same-leading}
use world_infra.HttpPrimitives.Blocks.{
  special_blocks, same_truth, or-false, is_public_unicast_v4-special_blocks,
}

-- A network of version 6 by the first two and the last segment of its address.
abbrev block : ℕ → ℕ → ℕ → ℕ → Cidr
block a b z prefix = record { addr = v6 (a * 2 ^ 112 + b * 2 ^ 96 + z); prefix = prefix }

abbrev pub special_blocks_v6 : List Cidr
special_blocks_v6 =
    block 0 0 0 128
    ∷ block 0 0 1 128
    ∷ block 0xff00 0 0 8
    ∷ block 0xfc00 0 0 7
    ∷ block 0xfe80 0 0 10
    ∷ block 0xfec0 0 0 10
    ∷ block 0x2001 0xdb8 0 32
    ∷ []

in_block_as :
    (network prefix addr : ℕ) (test : Bool)
    → prefix ≤ 128
    → network < 2 ^ 128
    → addr < 2 ^ 128
    → ((network / 2 ^ (128 - prefix) ≡ addr / 2 ^ (128 - prefix)) ↔ (test ≡ true))
    → contains_from (v6 network) prefix (v6 addr) ≡ test
unfolding contains_from
in_block_as network prefix addr test h k l same =
    let (forth, back) = same-leading 128 prefix network addr h k l in
    same_truth _ test ((λ e. same.0 (forth e)), (λ e. back (same.1 e)))

-- Each class of addresses is its network.
module _ (addr : ℕ) (h : addr < 2 ^ 128) where
  unspecified_block : contains_from (v6 0x0) 128 (v6 addr) ≡ (addr == 0)
  unspecified_block =
      in_block_as 0x0 128 addr _ (omega arith) (omega arith) h (ground arith, ground arith)

  loopback_block : contains_from (v6 0x1) 128 (v6 addr) ≡ (addr == 1)
  loopback_block =
      in_block_as 0x1 128 addr _ (omega arith) (omega arith) h (ground arith, ground arith)

  multicast_block :
      contains_from (v6 0xff000000000000000000000000000000) 8 (v6 addr) ≡ (is_multicast_v6 addr)
  multicast_block =
      in_block_as 0xff000000000000000000000000000000 8 addr _ (omega arith) (omega arith) h (
        ground (arith, bit_and-leading 8 8 (first_segment addr) (omega arith)),
        ground (arith, bit_and-leading 8 8 (first_segment addr) (omega arith)),
      )

  unique_local_block :
      contains_from (v6 0xfc000000000000000000000000000000) 7 (v6 addr) ≡ (is_unique_local_v6 addr)
  unique_local_block =
      in_block_as 0xfc000000000000000000000000000000 7 addr _ (omega arith) (omega arith) h (
        ground (arith, bit_and-leading 9 7 (first_segment addr) (omega arith)),
        ground (arith, bit_and-leading 9 7 (first_segment addr) (omega arith)),
      )

  link_local_block :
      contains_from (v6 0xfe800000000000000000000000000000) 10 (v6 addr)
      ≡ (is_unicast_link_local_v6 addr)
  link_local_block =
      in_block_as 0xfe800000000000000000000000000000 10 addr _ (omega arith) (omega arith) h (
        ground (arith, bit_and-leading 6 10 (first_segment addr) (omega arith)),
        ground (arith, bit_and-leading 6 10 (first_segment addr) (omega arith)),
      )

  site_local_block :
      contains_from (v6 0xfec00000000000000000000000000000) 10 (v6 addr) ≡ (is_site_local_v6 addr)
  site_local_block =
      in_block_as 0xfec00000000000000000000000000000 10 addr _ (omega arith) (omega arith) h (
        ground (arith, bit_and-leading 6 10 (first_segment addr) (omega arith)),
        ground (arith, bit_and-leading 6 10 (first_segment addr) (omega arith)),
      )

  documentation_block :
      contains_from (v6 0x20010db8000000000000000000000000) 32 (v6 addr)
      ≡ (is_documentation_v6 addr)
  documentation_block =
      in_block_as 0x20010db8000000000000000000000000 32 addr _ (omega arith) (omega arith) h
        (ground arith, ground arith)

-- An address is special if a network of its table contains it; an address of version 4 that is mapped
-- to version 6 is looked up as what it is.
abbrev pub is_special : IpAddr → Bool
is_special (v4 addr) = any (λ block. contains_addr block (v4 addr)) special_blocks
is_special (v6 addr) =
    if is_ipv4_mapped addr
    then any (λ block. contains_addr block (v4 (addr % 2 ^ 32))) special_blocks
    else any (λ block. contains_addr block (v6 addr)) special_blocks_v6

abbrev pub is_unspecified : IpAddr → Bool
is_unspecified (v4 addr) = addr == 0
is_unspecified (v6 addr) = addr == 0

is_public_unicast_v6-is_special :
    (addr : ℕ) → addr < 2 ^ 128 → is_public_unicast_v6 addr ≡ not (is_special (v6 addr))
unfolding is_public_unicast_v6
is_public_unicast_v6-is_special addr h = elim (Bool-cases (is_ipv4_mapped addr)) [
  | inl mapped ↦ rw mapped (is_public_unicast_v4-special_blocks (addr % 2 ^ 32) (omega arith))
  | inr plain ↦ rw plain (
      simp
        (
          unspecified_block addr h,
          loopback_block addr h,
          multicast_block addr h,
          unique_local_block addr h,
          link_local_block addr h,
          site_local_block addr h,
          documentation_block addr h,
          or-false,
        )
        refl)
]

-- The addresses that are public to bind to are the unspecified ones and those in no network of the tables:
-- the tables list this network, loopback, private, link-local, multicast, broadcast, shared, benchmarking,
-- documentation and reserved networks of version 4, and the like of version 6.
pub is_public_bind-is_special :
    (addr : IpAddr)
    → IsAddress addr
    → is_public_bind addr ≡ is_unspecified addr || not (is_special addr)
unfolding is_public_bind
is_public_bind-is_special (v4 addr) h =
    ap ((addr == 0) ||◌) (is_public_unicast_v4-special_blocks addr h)
is_public_bind-is_special (v6 addr) h =
    ap ((addr == 0) ||◌) (is_public_unicast_v6-is_special addr h)
