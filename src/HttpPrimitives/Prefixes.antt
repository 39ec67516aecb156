-- ===== src/HttpPrimitives/Prefixes.antt =====
-- The networks of crates/http-primitives/src/lib.rs as prefixes.
use Prim.Native.Nat.{bit_and}
use native.Mathlib.Nat.{
  pow-suc, zero-mul, mul-div_cancel, suc-mul, mul-suc, one-mul, one-le-pow, mul-add-mod_self_left,
  mod-eq_of_lt,
}
use world_infra.Prelude.{
  ℕ, zero, suc, ◌+◌, ◌-◌, ◌*◌, ◌/◌, ◌%◌, ◌^◌, ◌≤◌, ◌<◌, ◌≡◌, sym, ap, ◌∙◌, subst, ◌↔◌, true, false,
  ◌==◌, ==_iff, arith,
}
use world_infra.Prelude.Bits.{bit_and-leading}
use world_infra.HttpPrimitives.Addresses.{
  IpAddr, v4, v6, Cidr, max_prefix, mask, contains_from, contains_addr,
}

-- The number of an address fits the width of its version.
abbrev pub IsAddress : IpAddr → Type 0
IsAddress (v4 addr) = addr < 2 ^ 32
IsAddress (v6 addr) = addr < 2 ^ 128

-- A prefix of `prefix` bits of an address.
abbrev pub SharesPrefix : ℕ → IpAddr → IpAddr → Type 0
SharesPrefix prefix (v4 network) (v4 addr) = network / 2 ^ (32 - prefix) ≡ addr / 2 ^ (32 - prefix)
SharesPrefix prefix (v6 network) (v6 addr) =
    network / 2 ^ (128 - prefix) ≡ addr / 2 ^ (128 - prefix)
SharesPrefix prefix (v4 network) (v6 addr) = ⊥
SharesPrefix prefix (v6 network) (v4 addr) = ⊥

pow-add : (p k : ℕ) → 2 ^ (p + k) ≡ 2 ^ p * 2 ^ k
pow-add zero k =
    let none_more : 0 + k ≡ k = omega arith in ap (2 ^◌) none_more ∙ sym (one-mul (2 ^ k))
pow-add (suc p) k = grind (arith, pow-suc 2 p, pow-suc 2 (p + k), pow-add p k)

-- A word of `suc w` values with `suc a` leading ones, shifted by the width of `suc b`.
dropped_ones :
    (a b w : ℕ) → suc w ≡ suc a * suc b → (suc w - 1) * suc b % suc w ≡ (suc a - 1) * suc b
dropped_ones a b w h =
    let sum : w ≡ b + a * suc b = grind (arith, suc-mul a (suc b), h) in
    let one_less : suc a - 1 ≡ a = omega arith in
    let parts : (suc w - 1) * suc b ≡ suc w * b + a * suc b =
      grind (arith, suc-mul w b, mul-suc w b, sum) in
    ap (λ n. n % suc w) parts
    ∙ mul-add-mod_self_left (suc w) b (a * suc b)
    ∙ mod-eq_of_lt (omega (arith, sum))
    ∙ ap (λ n. n * suc b) (sym one_less)

with_ones : (p k w : ℕ) → 1 ≤ p → 1 ≤ k → 1 ≤ w → w ≡ p * k → (w - 1) * k % w ≡ (p - 1) * k
with_ones zero k w h l m e = absurd (omega arith)
with_ones (suc p) zero w h l m e = absurd (omega arith)
with_ones (suc p) (suc k) zero h l m e = absurd (omega arith)
with_ones (suc p) (suc k) (suc w) h l m e = dropped_ones p k w e

-- Shifting drops the leading ones: `p` of them are left.
shifted_ones : (p k : ℕ) → (2 ^ (p + k) - 1) * 2 ^ k % 2 ^ (p + k) ≡ (2 ^ p - 1) * 2 ^ k
shifted_ones p k =
    with_ones (2 ^ p) (2 ^ k) (2 ^ (p + k)) (one-le-pow p 2 (omega arith))
      (one-le-pow k 2 (omega arith)) (one-le-pow (p + k) 2 (omega arith)) (pow-add p k)

mask-leading :
    (width prefix : ℕ)
    → prefix ≤ width
    → mask width prefix ≡ (2 ^ prefix - 1) * 2 ^ (width - prefix)
unfolding mask
mask-leading width zero h = sym (zero-mul (2 ^ (width - 0)))
mask-leading width (suc p) h =
    let sum : suc p + (width - suc p) ≡ width = omega arith in
    let past : (suc p == 0) ≡ false = ground arith in
    rw past (
      subst (λ w. (2 ^ w - 1) * 2 ^ (width - suc p) % 2 ^ w ≡ (2 ^ suc p - 1) * 2 ^ (width - suc p))
        sum (shifted_ones (suc p) (width - suc p)))

bit_and-mask :
    (width prefix a : ℕ)
    → prefix ≤ width
    → a < 2 ^ width
    → bit_and a (mask width prefix) ≡ a / 2 ^ (width - prefix) * 2 ^ (width - prefix)
bit_and-mask width prefix a h k =
    let sum : prefix + (width - prefix) ≡ width = omega arith in
    ap (bit_and a) (mask-leading width prefix h)
    ∙ bit_and-leading (width - prefix) prefix a (subst (λ w. a < 2 ^ w) (sym sum) k)

pub same-leading :
    (width prefix a b : ℕ)
    → prefix ≤ width
    → a < 2 ^ width
    → b < 2 ^ width
    → ((bit_and a (mask width prefix) == bit_and b (mask width prefix)) ≡ true)
      ↔ (a / 2 ^ (width - prefix) ≡ b / 2 ^ (width - prefix))
same-leading width prefix a b h k l =
    let shift = 2 ^ (width - prefix) in
    let pos : 0 < shift = one-le-pow (width - prefix) 2 (omega arith) in
    rw (bit_and-mask width prefix a h k, bit_and-mask width prefix b h l)
      (
        (λ e.
            sym (mul-div_cancel (a / shift) pos)
            ∙ ap (λ n. n / shift) ((==_iff _ _).0 e)
            ∙ mul-div_cancel (b / shift) pos),
        (λ e. (==_iff _ _).1 (ap (λ n. n * shift) e)),
      )

contains_from_iff :
    (network : IpAddr) (prefix : ℕ) (addr : IpAddr)
    → prefix ≤ max_prefix network
    → IsAddress network
    → IsAddress addr
    → (contains_from network prefix addr ≡ true) ↔ SharesPrefix prefix network addr
unfolding contains_from
contains_from_iff (v4 network) prefix (v4 addr) h k l = same-leading 32 prefix network addr h k l
contains_from_iff (v6 network) prefix (v6 addr) h k l = same-leading 128 prefix network addr h k l
contains_from_iff (v4 network) prefix (v6 addr) h k l = ((λ e. cc), (λ e. absurd e))
contains_from_iff (v6 network) prefix (v4 addr) h k l = ((λ e. cc), (λ e. absurd e))

-- A network contains an address exactly when both are of one version and begin with the same bits, as
-- many as the prefix has.
pub contains_addr_iff :
    (cidr : Cidr) (addr : IpAddr)
    → cidr.prefix ≤ max_prefix cidr.addr
    → IsAddress cidr.addr
    → IsAddress addr
    → (contains_addr cidr addr ≡ true) ↔ SharesPrefix cidr.prefix cidr.addr addr
contains_addr_iff cidr addr h k l = contains_from_iff cidr.addr cidr.prefix addr h k l
