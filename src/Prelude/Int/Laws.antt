-- ===== src/Prelude/Int/Laws.antt =====
-- The saturating operations of `i64` by how they compare.
use native.Mathlib.Omega.{arith}
use Prim.Native.Nat.{ℕ}
use mathlib.Core.Path.{◌≡◌}
use mathlib.Core.Logic.{◌↔◌}
use world_infra.Prelude.Int.{
  ℤ, pos, negsuc, ◌+ℤ◌, ◌-ℤ◌, ◌≤ℤ◌, ◌<ℤ◌, i64_max, IsI64, clamp_i64, saturating_add, saturating_sub,
}

-- Subtracting on the left is adding on the right, also where the difference saturates.
pub saturating_sub_iff :
    (a c : ℤ) (n : ℕ)
    → IsI64 a
    → IsI64 c
    → ((saturating_sub a (pos n) ≤ℤ c) ↔ (a ≤ℤ c +ℤ pos n))
      × ((c <ℤ saturating_sub a (pos n)) ↔ (c +ℤ pos n <ℤ a))
unfolding saturating_sub clamp_i64 ◌-ℤ◌ ◌+ℤ◌
saturating_sub_iff (pos a) (pos c) n i j = ground arith
saturating_sub_iff (pos a) (negsuc c) n i j = ground arith
saturating_sub_iff (negsuc a) (pos c) n i j = ground arith
saturating_sub_iff (negsuc a) (negsuc c) n i j = ground arith

pub saturating_add_lem :
    (a : ℤ) (n : ℕ)
    → IsI64 a
    → IsI64 (saturating_add a (pos n))
      × (saturating_add a (pos n) ≤ℤ a +ℤ pos n)
      × (a ≤ℤ saturating_add a (pos n))
      × (a +ℤ pos n ≤ℤ pos i64_max → saturating_add a (pos n) ≡ a +ℤ pos n)
unfolding saturating_add clamp_i64 ◌+ℤ◌
saturating_add_lem (pos a) n i = ground arith
saturating_add_lem (negsuc a) n i = ground arith
