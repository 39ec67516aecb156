-- ===== src/HttpPrimitives/PublicBind.antt =====
-- crates/http-primitives/src/lib.rs: addresses that are publicly reachable when a server binds to them,
-- with the classes of the standard library's `Ipv4Addr` and `Ipv6Addr` that it uses.
use Prim.Native.Nat.{bit_and}
use world_infra.Prelude.{ℕ, ◌/◌, ◌%◌, ◌^◌, Bool, not, ◌&&◌, ◌||◌, leb, ◌==◌, if◌then◌else◌}
use world_infra.HttpPrimitives.Addresses.{IpAddr, v4, v6}

-- `Ipv4Addr::octets` and `Ipv6Addr::segments`, one at a time.
abbrev pub first_octet : ℕ → ℕ
first_octet addr = addr / 2 ^ 24

abbrev pub second_octet : ℕ → ℕ
second_octet addr = addr / 2 ^ 16 % 256

abbrev pub third_octet : ℕ → ℕ
third_octet addr = addr / 2 ^ 8 % 256

abbrev pub first_segment : ℕ → ℕ
first_segment addr = addr / 2 ^ 112

abbrev pub second_segment : ℕ → ℕ
second_segment addr = addr / 2 ^ 96 % 65536

abbrev pub is_loopback_v4 : ℕ → Bool
is_loopback_v4 addr = first_octet addr == 127

abbrev pub is_private_v4 : ℕ → Bool
is_private_v4 addr =
    first_octet addr == 10
    || ((first_octet addr == 172 && (leb 16 (second_octet addr) && leb (second_octet addr) 31))
        || (first_octet addr == 192 && second_octet addr == 168))

abbrev pub is_link_local_v4 : ℕ → Bool
is_link_local_v4 addr = first_octet addr == 169 && second_octet addr == 254

abbrev pub is_multicast_v4 : ℕ → Bool
is_multicast_v4 addr = leb 224 (first_octet addr) && leb (first_octet addr) 239

abbrev pub is_broadcast_v4 : ℕ → Bool
is_broadcast_v4 addr = addr == 0xffffffff

abbrev pub is_shared_v4 : ℕ → Bool
is_shared_v4 addr =
    first_octet addr == 100 && (leb 64 (second_octet addr) && leb (second_octet addr) 127)

abbrev pub is_benchmarking_v4 : ℕ → Bool
is_benchmarking_v4 addr =
    first_octet addr == 198 && (second_octet addr == 18 || second_octet addr == 19)

abbrev pub is_documentation_v4 : ℕ → Bool
is_documentation_v4 addr =
    (first_octet addr == 192 && (second_octet addr == 0 && third_octet addr == 2))
    || ((first_octet addr == 198 && (second_octet addr == 51 && third_octet addr == 100))
        || (first_octet addr == 203 && (second_octet addr == 0 && third_octet addr == 113)))

abbrev pub is_reserved_v4 : ℕ → Bool
is_reserved_v4 addr = leb 240 (first_octet addr)

unfoldable pub is_public_unicast_v4 : ℕ → Bool
is_public_unicast_v4 addr = not (
    first_octet addr == 0
    || (is_loopback_v4 addr
        || (is_private_v4 addr
            || (is_link_local_v4 addr
                || (is_multicast_v4 addr
                    || (is_broadcast_v4 addr
                        || (is_shared_v4 addr
                            || (is_benchmarking_v4 addr
                                || (is_documentation_v4 addr || is_reserved_v4 addr)))))))))

abbrev pub is_multicast_v6 : ℕ → Bool
is_multicast_v6 addr = bit_and (first_segment addr) 0xff00 == 0xff00

abbrev pub is_unique_local_v6 : ℕ → Bool
is_unique_local_v6 addr = bit_and (first_segment addr) 0xfe00 == 0xfc00

abbrev pub is_unicast_link_local_v6 : ℕ → Bool
is_unicast_link_local_v6 addr = bit_and (first_segment addr) 0xffc0 == 0xfe80

abbrev pub is_site_local_v6 : ℕ → Bool
is_site_local_v6 addr = bit_and (first_segment addr) 0xffc0 == 0xfec0

abbrev pub is_documentation_v6 : ℕ → Bool
is_documentation_v6 addr = first_segment addr == 0x2001 && second_segment addr == 0x0db8

-- `Ipv6Addr::to_ipv4_mapped` gives an address of version 4 behind ::ffff:0:0/96.
abbrev pub is_ipv4_mapped : ℕ → Bool
is_ipv4_mapped addr = addr / 2 ^ 32 == 0xffff

unfoldable pub is_public_unicast_v6 : ℕ → Bool
is_public_unicast_v6 addr =
    if is_ipv4_mapped addr
    then is_public_unicast_v4 (addr % 2 ^ 32)
    else not (
        addr == 0
        || (addr == 1
            || (is_multicast_v6 addr
                || (is_unique_local_v6 addr
                    || (is_unicast_link_local_v6 addr
                        || (is_site_local_v6 addr || is_documentation_v6 addr))))))

unfoldable pub is_public_bind : IpAddr → Bool
is_public_bind (v4 addr) = addr == 0 || is_public_unicast_v4 addr
is_public_bind (v6 addr) = addr == 0 || is_public_unicast_v6 addr
