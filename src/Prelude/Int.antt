-- ===== src/Prelude/Int.antt =====
-- Signed integers over the native numbers, under the library's names, and the saturating `i64`.
pub mod Laws
use Prim.Native.Nat.{ℕ, suc, ◌+◌, ◌-◌, ◌^◌, ◌≤◌, ◌<◌}
use mathlib.Core.Bool.{Bool}
use world_infra.Prelude.Tests.{ltb, leb, if◌then◌else◌}

-- `negsuc n` is -(n + 1).
pub data ℤ : Type 0 where
  pos : ℕ → ℤ
  negsuc : ℕ → ℤ

abbrev pub pos_part : ℤ → ℕ
pos_part (pos n) = n
pos_part (negsuc n) = 0

abbrev pub neg_part : ℤ → ℕ
neg_part (pos n) = 0
neg_part (negsuc n) = suc n

-- a - b, as an integer.
abbrev pub sub_ℕ : ℕ → ℕ → ℤ
sub_ℕ a b = if leb b a then pos (a - b) else negsuc (b - a - 1)

infixl 65 ◌+ℤ◌ ◌-ℤ◌
infix 50 ◌≤ℤ◌ ◌<ℤ◌
unfoldable pub ◌+ℤ◌ : ℤ → ℤ → ℤ
a +ℤ b = sub_ℕ (pos_part a + pos_part b) (neg_part a + neg_part b)

unfoldable pub ◌-ℤ◌ : ℤ → ℤ → ℤ
a -ℤ b = sub_ℕ (pos_part a + neg_part b) (neg_part a + pos_part b)

abbrev pub ◌≤ℤ◌ : ℤ → ℤ → Type 0
a ≤ℤ b = pos_part a + neg_part b ≤ pos_part b + neg_part a

abbrev pub ◌<ℤ◌ : ℤ → ℤ → Type 0
a <ℤ b = pos_part a + neg_part b < pos_part b + neg_part a

abbrev pub ltb_ℤ : ℤ → ℤ → Bool
ltb_ℤ a b = ltb (pos_part a + neg_part b) (pos_part b + neg_part a)

abbrev pub i64_max : ℕ
i64_max = 2 ^ 63 - 1

-- The values of `i64`: from -(i64_max + 1) to i64_max.
abbrev pub IsI64 : ℤ → Type 0
IsI64 a = (pos_part a ≤ i64_max) × (neg_part a ≤ i64_max + 1)

unfoldable pub clamp_i64 : ℤ → ℤ
clamp_i64 (pos n) = if ltb i64_max n then pos i64_max else pos n
clamp_i64 (negsuc n) = if ltb i64_max n then negsuc i64_max else negsuc n

-- `i64::saturating_add` and `i64::saturating_sub`.
unfoldable pub saturating_add : ℤ → ℤ → ℤ
unfolding clamp_i64 ◌+ℤ◌
saturating_add a b = clamp_i64 (a +ℤ b)

unfoldable pub saturating_sub : ℤ → ℤ → ℤ
unfolding clamp_i64 ◌-ℤ◌
saturating_sub a b = clamp_i64 (a -ℤ b)
