-- ===== src/HttpPrimitives/Blocks.antt =====
-- The addresses that are not public in crates/http-primitives/src/lib.rs, as a table of networks.
use world_infra.Prelude.{
  ℕ, ◌+◌, ◌-◌, ◌*◌, ◌/◌, ◌^◌, ◌≤◌, ◌<◌, ◌≡◌, refl, sym, ◌∙◌, ◌↔◌, Bool, true, false, not, ◌||◌,
  ◌&&◌, List, [], ◌∷◌, any, leb, ◌==◌, ==_iff, arith,
}
use world_infra.HttpPrimitives.Addresses.{v4, Cidr, contains_addr, contains_from}
use world_infra.HttpPrimitives.PublicBind.{
  is_public_unicast_v4, first_octet, second_octet, third_octet, is_loopback_v4, is_link_local_v4,
  is_multicast_v4, is_broadcast_v4, is_shared_v4, is_benchmarking_v4, is_reserved_v4,
}
use world_infra.HttpPrimitives.Prefixes.{same-leading}

-- A network of version 4 by its first address.
abbrev block : ℕ → ℕ → ℕ → ℕ → ℕ → Cidr
block a b c d prefix = record {
  addr = v4 (a * 2 ^ 24 + b * 2 ^ 16 + c * 2 ^ 8 + d);
  prefix = prefix;
}

-- The networks that are not public.
abbrev pub special_blocks : List Cidr
special_blocks =
    block 0 0 0 0 8
    ∷ block 127 0 0 0 8
    ∷ block 10 0 0 0 8
    ∷ block 172 16 0 0 12
    ∷ block 192 168 0 0 16
    ∷ block 169 254 0 0 16
    ∷ block 224 0 0 0 4
    ∷ block 255 255 255 255 32
    ∷ block 100 64 0 0 10
    ∷ block 198 18 0 0 15
    ∷ block 192 0 2 0 24
    ∷ block 198 51 100 0 24
    ∷ block 203 0 113 0 24
    ∷ block 240 0 0 0 4
    ∷ []

pub same_truth : (p q : Bool) → (p ≡ true) ↔ (q ≡ true) → p ≡ q
same_truth true q h = sym (h.0 refl)
same_truth false true h = h.1 refl
same_truth false false h = refl

in_block :
    (network prefix addr : ℕ)
    → prefix ≤ 32
    → network < 2 ^ 32
    → addr < 2 ^ 32
    → contains_from (v4 network) prefix (v4 addr)
      ≡ (network / 2 ^ (32 - prefix) == addr / 2 ^ (32 - prefix))
unfolding contains_from
in_block network prefix addr h k l =
    let (forth, back) = same-leading 32 prefix network addr h k l in
    same_truth _ _ ((λ e. (==_iff _ _).1 (forth e)), (λ e. back ((==_iff _ _).0 e)))

in_block_as :
    (network prefix addr : ℕ) (test : Bool)
    → prefix ≤ 32
    → network < 2 ^ 32
    → addr < 2 ^ 32
    → ((network / 2 ^ (32 - prefix) ≡ addr / 2 ^ (32 - prefix)) ↔ (test ≡ true))
    → contains_from (v4 network) prefix (v4 addr) ≡ test
in_block_as network prefix addr test h k l same =
    in_block network prefix addr h k l
    ∙ same_truth _ test ((λ e. same.0 ((==_iff _ _).0 e)), (λ e. (==_iff _ _).1 (same.1 e)))

-- Each class of addresses is its networks.
module _ (addr : ℕ) (h : addr < 2 ^ 32) where
  zero_block : contains_from (v4 0) 8 (v4 addr) ≡ (first_octet addr == 0)
  zero_block = in_block_as 0 8 addr _ (omega arith) (omega arith) h (ground arith, ground arith)

  loopback_block : contains_from (v4 2130706432) 8 (v4 addr) ≡ (is_loopback_v4 addr)
  loopback_block =
      in_block_as 2130706432 8 addr _ (omega arith) (omega arith) h (ground arith, ground arith)

  private_block_10 : contains_from (v4 167772160) 8 (v4 addr) ≡ (first_octet addr == 10)
  private_block_10 =
      in_block_as 167772160 8 addr _ (omega arith) (omega arith) h (ground arith, ground arith)

  private_block_172 :
      contains_from (v4 2886729728) 12 (v4 addr)
      ≡ (first_octet addr == 172 && (leb 16 (second_octet addr) && leb (second_octet addr) 31))
  private_block_172 =
      in_block_as 2886729728 12 addr _ (omega arith) (omega arith) h (ground arith, ground arith)

  private_block_192 :
      contains_from (v4 3232235520) 16 (v4 addr)
      ≡ (first_octet addr == 192 && second_octet addr == 168)
  private_block_192 =
      in_block_as 3232235520 16 addr _ (omega arith) (omega arith) h (ground arith, ground arith)

  link_local_block : contains_from (v4 2851995648) 16 (v4 addr) ≡ (is_link_local_v4 addr)
  link_local_block =
      in_block_as 2851995648 16 addr _ (omega arith) (omega arith) h (ground arith, ground arith)

  multicast_block : contains_from (v4 3758096384) 4 (v4 addr) ≡ (is_multicast_v4 addr)
  multicast_block =
      in_block_as 3758096384 4 addr _ (omega arith) (omega arith) h (ground arith, ground arith)

  broadcast_block : contains_from (v4 4294967295) 32 (v4 addr) ≡ (is_broadcast_v4 addr)
  broadcast_block =
      in_block_as 4294967295 32 addr _ (omega arith) (omega arith) h (ground arith, ground arith)

  shared_block : contains_from (v4 1681915904) 10 (v4 addr) ≡ (is_shared_v4 addr)
  shared_block =
      in_block_as 1681915904 10 addr _ (omega arith) (omega arith) h (ground arith, ground arith)

  benchmarking_block : contains_from (v4 3323068416) 15 (v4 addr) ≡ (is_benchmarking_v4 addr)
  benchmarking_block =
      in_block_as 3323068416 15 addr _ (omega arith) (omega arith) h (ground arith, ground arith)

  documentation_block_192 :
      contains_from (v4 3221225984) 24 (v4 addr)
      ≡ (first_octet addr == 192 && (second_octet addr == 0 && third_octet addr == 2))
  documentation_block_192 =
      in_block_as 3221225984 24 addr _ (omega arith) (omega arith) h (ground arith, ground arith)

  documentation_block_198 :
      contains_from (v4 3325256704) 24 (v4 addr)
      ≡ (first_octet addr == 198 && (second_octet addr == 51 && third_octet addr == 100))
  documentation_block_198 =
      in_block_as 3325256704 24 addr _ (omega arith) (omega arith) h (ground arith, ground arith)

  documentation_block_203 :
      contains_from (v4 3405803776) 24 (v4 addr)
      ≡ (first_octet addr == 203 && (second_octet addr == 0 && third_octet addr == 113))
  documentation_block_203 =
      in_block_as 3405803776 24 addr _ (omega arith) (omega arith) h (ground arith, ground arith)

  reserved_block : contains_from (v4 4026531840) 4 (v4 addr) ≡ (is_reserved_v4 addr)
  reserved_block =
      in_block_as 4026531840 4 addr _ (omega arith) (omega arith) h (ground arith, ground arith)

or_three : (p q r x : Bool) → (p || (q || r)) || x ≡ p || (q || (r || x))
or_three true q r x = refl
or_three false true r x = refl
or_three false false true x = refl
or_three false false false x = refl

pub or-false : (p : Bool) → p || false ≡ p
or-false true = refl
or-false false = refl

pub is_public_unicast_v4-special_blocks :
    (addr : ℕ)
    → addr < 2 ^ 32
    → is_public_unicast_v4 addr ≡ not (any (λ block. contains_addr block (v4 addr)) special_blocks)
unfolding is_public_unicast_v4
is_public_unicast_v4-special_blocks addr h =
    simp
      (
        zero_block addr h,
        loopback_block addr h,
        private_block_10 addr h,
        private_block_172 addr h,
        private_block_192 addr h,
        link_local_block addr h,
        multicast_block addr h,
        broadcast_block addr h,
        shared_block addr h,
        benchmarking_block addr h,
        documentation_block_192 addr h,
        documentation_block_198 addr h,
        documentation_block_203 addr h,
        reserved_block addr h,
        or_three,
        or-false,
      )
      refl
