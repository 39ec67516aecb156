-- ===== src/RateLimit/ParseLaws.antt =====
-- What limits the two parsers accept.
use world_infra.Prelude.{
  ℕ, ◌*◌, ◌+◌, ◌-◌, ◌≤◌, ◌<◌, ◌≡◌, Option, none, some, [], ◌∷◌, ok, Option-cases, Result-cases, inl,
  inr, arith, ◌⊎◌,
}
use world_infra.Text.{Text, trim}
use world_infra.Text.Scan.{parse_digits, parse_unsigned, split_once, to_ascii_lowercase}
use world_infra.RateLimit.{LimitSpec, fixed, u32_max, u64_max, nanos_per_milli, new_fixed}
use world_infra.RateLimit.Parse.{
  WindowParseMode, permissive_bare_seconds, strict_suffix, named_window, number_and_scale,
  scaled_window, parse_window, parse_fixed, parse_limit_spec_with_mode, parse_limit_spec,
  parse_limit_spec_strict,
}

parse_digits_le :
    (limit value n : ℕ) (s : Text) → value ≤ limit → parse_digits limit value s ≡ some n → n ≤ limit
unfolding parse_digits
parse_digits_le limit value n [] b h = ground arith
parse_digits_le limit value n (c ∷ s) b h =
    ground (arith, parse_digits_le limit (value * 10 + (c - b'0')) n s)

parse_unsigned_le : (limit n : ℕ) (s : Text) → parse_unsigned limit s ≡ some n → n ≤ limit
unfolding parse_unsigned
parse_unsigned_le limit n [] h = cc
parse_unsigned_le limit n (c ∷ s) h =
    ground (arith, parse_digits_le limit 0 n s, parse_digits_le limit 0 n (c ∷ s))

-- The bounds of a window.
abbrev IsWindow : ℕ → Type 0
IsWindow window = (0 < window) × (window ≤ u64_max * nanos_per_milli)

abbrev IsScale : Option (Text × ℕ) → Type 0
IsScale none = Unit
IsScale (some split) = 0 < split.1

scale-pos :
    (value : Text) (mode : WindowParseMode) (split : Text × ℕ)
    → number_and_scale value mode ≡ some split
    → 0 < split.1
unfolding number_and_scale
scale-pos value mode split h = ground arith

named_window-IsWindow :
    (value : Text) (millis : ℕ)
    → named_window value ≡ some millis
    → IsWindow (millis * nanos_per_milli)
unfolding named_window
named_window-IsWindow value millis h = ground arith

scaled_window-IsWindow :
    (number : Text) (scale window : ℕ)
    → 0 < scale
    → scaled_window number scale ≡ ok window
    → IsWindow window
unfolding scaled_window
scaled_window-IsWindow number scale window p h = grind arith

parse_window-IsWindow :
    (value : Text) (mode : WindowParseMode) (window : ℕ)
    → parse_window value mode ≡ ok window
    → IsWindow window
unfolding parse_window
parse_window-IsWindow value mode window h =
    let lower = to_ascii_lowercase (trim value) in
    elim (Option-cases (named_window lower)) [
      | inl unnamed ↦ elim (Option-cases (number_and_scale lower mode)) [
        | inl none_left ↦ absurd (ground (arith, unnamed, none_left))
        | inr (split, e) ↦
            scaled_window-IsWindow split.0 split.1 window (scale-pos lower mode split e)
              (ground (arith, unnamed, e))
      ]
      | inr (millis, named) ↦ ground (arith, named, named_window-IsWindow lower millis named)
    ]

parse_fixed-eq-ok :
    (left right : Text) (mode : WindowParseMode) (count window : ℕ)
    → parse_fixed left right mode ≡ ok (fixed count window)
    → (count ≤ u32_max) × (0 < count) × IsWindow window
unfolding parse_fixed
parse_fixed-eq-ok left right mode count window h =
    ground
      (arith, parse_unsigned_le u32_max count (trim left), parse_window-IsWindow right mode window)

-- Every fixed limit that a parser accepts is one that `LimitSpec::fixed` makes, with a count that fits
-- u32 and a window of at most as many milliseconds as a u64 holds.
pub parse_limit_spec_with_mode-eq-ok :
    (value : Text) (mode : WindowParseMode) (count window : ℕ)
    → parse_limit_spec_with_mode value mode ≡ ok (fixed count window)
    → (count ≤ u32_max)
      × (window ≤ u64_max * nanos_per_milli)
      × (new_fixed count window ≡ ok (fixed count window))
unfolding parse_limit_spec_with_mode new_fixed
parse_limit_spec_with_mode-eq-ok value mode count window h =
    elim (Option-cases (split_once b'/' (trim value))) [
      | inl whole ↦ absurd (ground (arith, whole))
      | inr (halves, e) ↦ ground (arith, e, parse_fixed-eq-ok halves.0 halves.1 mode count window)
    ]

number_and_scale_strict :
    (value : Text)
    → (number_and_scale value strict_suffix ≡ none)
      ⊎ (number_and_scale value strict_suffix ≡ number_and_scale value permissive_bare_seconds)
unfolding number_and_scale
number_and_scale_strict value = ground arith

parse_window_strict :
    (value : Text) (window : ℕ)
    → parse_window value strict_suffix ≡ ok window
    → parse_window value permissive_bare_seconds ≡ ok window
unfolding parse_window
parse_window_strict value window h =
    let lower = to_ascii_lowercase (trim value) in
    elim (Option-cases (named_window lower)) [
      | inl unnamed ↦ elim (number_and_scale_strict lower) [
        | inl refused ↦ absurd (ground (arith, unnamed, refused))
        | inr same ↦ ground (arith, unnamed, same)
      ]
      | inr (millis, named) ↦ ground (arith, named)
    ]

parse_fixed_strict :
    (left right : Text) (spec : LimitSpec)
    → parse_fixed left right strict_suffix ≡ ok spec
    → parse_fixed left right permissive_bare_seconds ≡ ok spec
unfolding parse_fixed
parse_fixed_strict left right spec h = elim (Result-cases (parse_window right strict_suffix)) [
  | inl (window, e) ↦ ground (arith, e, parse_window_strict right window e)
  | inr (x, e) ↦ absurd (ground (arith, e))
]

-- The strict parser accepts less, and where it accepts it reads the same limit.
pub parse_limit_spec_strict-eq-ok :
    (value : Text) (spec : LimitSpec)
    → parse_limit_spec_strict value ≡ ok spec
    → parse_limit_spec value ≡ ok spec
unfolding parse_limit_spec_strict parse_limit_spec parse_limit_spec_with_mode
parse_limit_spec_strict-eq-ok value spec h = elim (Option-cases (split_once b'/' (trim value))) [
  | inl whole ↦ ground (arith, whole)
  | inr (halves, e) ↦ ground (arith, e, parse_fixed_strict halves.0 halves.1 spec)
]
