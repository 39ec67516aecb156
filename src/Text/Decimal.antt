-- ===== src/Text/Decimal.antt =====
-- Unsigned integers as the program prints them, `to_string` and `{}` of a `usize`, `u32` or `u64`.
use world_infra.Prelude.{
  ℕ, zero, suc, ◌+◌, ◌-◌, ◌*◌, ◌/◌, ◌%◌, ◌≤◌, ◌<◌, ◌≡◌, refl, sym, ap, ◌∙◌, true, false, [], ◌∷◌,
  ◌++◌, arith, ◌==◌, All,
}
use world_infra.Text.{Text}

-- The digits of `n` in front of `rest`, the last one first; `fuel` is above `n`.
decimal_before : ℕ → ℕ → Text → Text
decimal_before zero n rest = rest
decimal_before (suc fuel) n rest = elim (n / 10 == 0) [
  | true ↦ (b'0' + n % 10) ∷ rest
  | false ↦ decimal_before fuel (n / 10) ((b'0' + n % 10) ∷ rest)
]

unfoldable pub decimal : ℕ → Text
unfolding decimal_before
decimal n = decimal_before (suc n) n []

-- The number that a text of digits stands for, read from the left after the value `n`.
value_from : ℕ → Text → ℕ
value_from n [] = n
value_from n (c ∷ s) = value_from (10 * n + (c - b'0')) s

value_from-decimal_before :
    (fuel n : ℕ) (rest : Text)
    → n < fuel
    → value_from 0 (decimal_before fuel n rest) ≡ value_from n rest
unfolding decimal_before value_from
value_from-decimal_before zero n rest h = elim h [ ]
value_from-decimal_before (suc fuel) n rest h =
    ground (arith, value_from-decimal_before fuel (n / 10) ((b'0' + n % 10) ∷ rest))

value_from-decimal : (n : ℕ) → value_from 0 (decimal n) ≡ n
unfolding decimal value_from
value_from-decimal n = value_from-decimal_before (suc n) n [] (omega arith)

pub decimal_injective : (m n : ℕ) → decimal m ≡ decimal n → m ≡ n
decimal_injective m n h = sym (value_from-decimal m) ∙ ap (value_from 0) h ∙ value_from-decimal n

abbrev pub IsDigit : ℕ → Type 0
IsDigit c = (b'0' ≤ c) × (c ≤ b'9')

decimal_before-IsDigit :
    (fuel n : ℕ) (rest : Text) → All IsDigit rest → All IsDigit (decimal_before fuel n rest)
unfolding decimal_before
decimal_before-IsDigit zero n rest h = h
decimal_before-IsDigit (suc fuel) n rest h =
    ground (arith, decimal_before-IsDigit fuel (n / 10) ((b'0' + n % 10) ∷ rest))

pub decimal-IsDigit : (n : ℕ) → All IsDigit (decimal n)
unfolding decimal
decimal-IsDigit n = decimal_before-IsDigit (suc n) n [] tt

-- A separator that is no digit ends a number in one way.
split_at_separator :
    (c : ℕ) (s t u v : Text)
    → ¬ IsDigit c
    → All IsDigit s
    → All IsDigit t
    → s ++ c ∷ u ≡ t ++ c ∷ v
    → (s ≡ t) × (u ≡ v)
split_at_separator c [] [] u v n h k e = ground arith
split_at_separator c [] (y ∷ t) u v n h k e = ground (arith, n)
split_at_separator c (x ∷ s) [] u v n h k e = ground (arith, n)
split_at_separator c (x ∷ s) (y ∷ t) u v n h k e =
    ground (arith, split_at_separator c s t u v n h.1 k.1)

-- A number and what follows its separator can be read back.
pub decimal_prefix_injective :
    (c m n : ℕ) (u v : Text)
    → ¬ IsDigit c
    → decimal m ++ c ∷ u ≡ decimal n ++ c ∷ v
    → (m ≡ n) × (u ≡ v)
decimal_prefix_injective c m n u v h e =
    let parts =
      split_at_separator c (decimal m) (decimal n) u v h (decimal-IsDigit m) (decimal-IsDigit n)
        e in
    (decimal_injective m n parts.0, parts.1)

decimal_example : decimal 5120 ≡ b'5' ∷ b'1' ∷ b'2' ∷ b'0' ∷ []
unfolding decimal
decimal_example = refl
