-- ===== src/Backoff/Laws.antt =====
-- The backoff loop against its closed form.
use native.Mathlib.Nat.{pow-zero, pow-succ', one-le-pow, le-mul_of_pos_right, mul_assoc}
use world_infra.Prelude.{ℕ, zero, suc, ◌*◌, ◌^◌, ◌≤◌, ◌<◌, ◌≡◌, refl, min, arith}
use world_infra.Backoff.{duration_max, saturating_mul, delay_loop}

-- A cap in between does not change a cap at the end.
min-mul : (max a b : ℕ) → 0 < b → min max (min max a * b) ≡ min max (a * b)
min-mul max a b h = grind (arith, le-mul_of_pos_right max h, le-mul_of_pos_right a h)

next_lem : (max m d : ℕ) → max ≤ duration_max → min (saturating_mul d m) max ≡ min max (d * m)
unfolding saturating_mul
next_lem max m d b = omega arith

delay_loop-fixed : (max m n d : ℕ) → min (saturating_mul d m) max ≡ d → delay_loop max m n d ≡ d
unfolding delay_loop
delay_loop-fixed max m zero d h = refl
delay_loop-fixed max m (suc n) d h = ground arith

-- The delay after `n` rounds is the `n`-th power of the multiplier times the first delay, capped.
pub delay_loop_lem :
    (max m n d : ℕ)
    → max ≤ duration_max
    → 0 < m
    → d ≤ max
    → delay_loop max m n d ≡ min max (d * m ^ n)
unfolding delay_loop
delay_loop_lem max m zero d b p h = rw (pow-zero m) (omega arith)
delay_loop_lem max m (suc n) d b p h =
    let capped = delay_loop_lem max m n (min max (d * m)) b p (omega arith) in
    let whole = min-mul max (d * m) (m ^ n) (one-le-pow n m p) in
    let power = mul_assoc d m (m ^ n) in
    ground
      (arith, capped, whole, power, pow-succ' m n, next_lem max m d b, delay_loop-fixed max m n d)
