-- ===== src/Prelude/Bits.antt =====
-- `&` on unsigned integers, with the masks of the leading bits.
use Prim.Native.Nat.{
  ℕ, zero, suc, ◌+◌, ◌-◌, ◌*◌, ◌/◌, ◌%◌, ◌^◌, ◌≤◌, ◌<◌, min, digits, bit_and-bitwise,
}
pub use Prim.Native.Nat.{bit_and}
use mathlib.Core.Path.{◌≡◌, refl, sym, ap, ◌∙◌}
use native.Mathlib.Nat.{pow-suc, pow-succ', one-le-pow, div-div-eq-div-mul, mul-one}
use native.Mathlib.Omega.{arith}

-- The fuel of the definition by digits is enough from the first argument on.
abbrev and_digits : ℕ → ℕ → ℕ → ℕ
and_digits n a b = digits (λ b. zero) min n a b

and_digits_more : (n m a b : ℕ) → a ≤ n → a ≤ m → and_digits n a b ≡ and_digits m a b
and_digits_more zero zero a b p q = refl
and_digits_more zero (suc m) zero b p q = refl
and_digits_more zero (suc m) (suc a) b p q = absurd (omega arith)
and_digits_more (suc n) zero zero b p q = refl
and_digits_more (suc n) zero (suc a) b p q = absurd (omega arith)
and_digits_more (suc n) (suc m) zero b p q = refl
and_digits_more (suc n) (suc m) (suc a) b p q =
    omega (arith, and_digits_more n m (suc a / 2) (b / 2) (omega arith) (omega arith))

zero-bit_and : (b : ℕ) → bit_and 0 b ≡ 0
zero-bit_and b = bit_and-bitwise 0 b

-- The lowest bit, and the others.
bit_and_halves : (a b : ℕ) → bit_and a b ≡ bit_and (a / 2) (b / 2) * 2 + min (a % 2) (b % 2)
bit_and_halves zero b = omega (arith, zero-bit_and b, zero-bit_and (b / 2))
bit_and_halves (suc a) b = omega (
  arith,
  bit_and-bitwise (suc a) b,
  bit_and-bitwise (suc a / 2) (b / 2),
  and_digits_more a (suc a / 2) (suc a / 2) (b / 2) (omega arith) (omega arith),
)

bit_and-zero_below : (n a : ℕ) → a < n → bit_and a 0 ≡ 0
bit_and-zero_below zero a h = absurd (omega arith)
bit_and-zero_below (suc n) zero h = zero-bit_and 0
bit_and-zero_below (suc n) (suc a) h =
    omega (arith, bit_and_halves (suc a) 0, bit_and-zero_below n (suc a / 2) (omega arith))

bit_and-zero : (a : ℕ) → bit_and a 0 ≡ 0
bit_and-zero a = bit_and-zero_below (suc a) a (omega arith)

bit_and_double : (a m : ℕ) → bit_and a (2 * m) ≡ 2 * bit_and (a / 2) m
bit_and_double a m = ground (arith, bit_and_halves a (2 * m))

-- The ones of a mask keep every number that is no longer than they are.
bit_and-ones : (n a : ℕ) → a < 2 ^ n → bit_and a (2 ^ n - 1) ≡ a
bit_and-ones zero a h = ground (arith, bit_and-zero a)
bit_and-ones (suc n) a h =
    ground
      (arith, one-le-pow n 2, pow-suc 2 n, bit_and_halves a (2 ^ suc n - 1), bit_and-ones n (a / 2))

times_two_power : (q k : ℕ) → q * 2 ^ suc k ≡ 2 * (q * 2 ^ k)
times_two_power q k = omega (arith, ap (q *◌) (pow-suc 2 k))

-- A mask of `n` ones in front of `k` zeros keeps the leading bits of a number of `n + k` bits.
pub bit_and-leading :
    (k n a : ℕ) → a < 2 ^ (n + k) → bit_and a ((2 ^ n - 1) * 2 ^ k) ≡ a / 2 ^ k * 2 ^ k
bit_and-leading zero n a h = ground (arith, bit_and-ones n a, mul-one (2 ^ n - 1), mul-one a)
bit_and-leading (suc k) n a h =
    let short : a / 2 < 2 ^ (n + k) = grind (arith, pow-succ' 2 (n + k)) in
    ap (bit_and a) (times_two_power (2 ^ n - 1) k)
    ∙ bit_and_double a ((2 ^ n - 1) * 2 ^ k)
    ∙ ap (2 *◌) (bit_and-leading k n (a / 2) short)
    ∙ rw (div-div-eq-div-mul a 2 (2 ^ k), sym (pow-succ' 2 k))
        (sym (times_two_power (a / 2 ^ suc k) k))
