-- ===== src/RateLimit/Parse.antt =====
-- crates/rate-limit-core/src/lib.rs: limits written as text, such as `10/min` or `unlimited`.
use world_infra.Prelude.{
  ℕ, ◌*◌, Bool, Option, none, some, List, [], ◌∷◌, any, Result, ok, err, ◌>>=◌, ◌>>◌, fail_if,
  ok_or, ltb, ◌==◌, if◌then◌else◌,
}
use world_infra.Text.{Text, codes, text_eq, trim, is_empty}
use world_infra.Text.Scan.{to_ascii_lowercase, split_once, strip_suffix, parse_unsigned}
use world_infra.RateLimit.{
  LimitSpec, fixed, unlimited, LimitParseError, invalid_count, invalid_window, u32_max, u64_max,
  nanos_per_milli,
}

pub data WindowParseMode : Type 0 where
  permissive_bare_seconds strict_suffix : WindowParseMode

abbrev pub is_one_of : Text → List Text → Bool
is_one_of value names = any (text_eq value) names

-- The windows that have a name, in milliseconds.
unfoldable pub named_window : Text → Option ℕ
named_window value =
    if is_one_of value (codes "s" ∷ codes "sec" ∷ codes "second" ∷ codes "seconds" ∷ [])
    then some 1_000
    else if is_one_of value (codes "m" ∷ codes "min" ∷ codes "minute" ∷ codes "minutes" ∷ [])
    then some 60_000
    else if is_one_of value (codes "h" ∷ codes "hr" ∷ codes "hour" ∷ codes "hours" ∷ [])
    then some 3_600_000
    else if is_one_of value (codes "d" ∷ codes "day" ∷ codes "days" ∷ [])
    then some 86_400_000
    else none

-- The number of units, as text, and the milliseconds of a unit.
unfoldable pub number_and_scale : Text → WindowParseMode → Option (Text × ℕ)
number_and_scale value mode = elim (strip_suffix (codes "ms") value) [
  | some number ↦ some (number, 1)
  | none ↦ elim (strip_suffix (codes "s") value) [
    | some number ↦ some (number, 1_000)
    | none ↦ elim (strip_suffix (codes "m") value) [
      | some number ↦ some (number, 60_000)
      | none ↦ elim (strip_suffix (codes "h") value) [
        | some number ↦ some (number, 3_600_000)
        | none ↦ elim (strip_suffix (codes "d") value) [
          | some number ↦ some (number, 86_400_000)
          | none ↦ elim mode [
            | strict_suffix ↦ none
            | permissive_bare_seconds ↦ some (value, 1_000)
          ]
        ]
      ]
    ]
  ]
]

-- A window of a number of units: neither zero nor more milliseconds than a u64 holds.
unfoldable pub scaled_window : Text → ℕ → Result LimitParseError ℕ
scaled_window number scale_millis = do
  units ← ok_or (parse_unsigned u64_max (trim number)) invalid_window
  fail_if (units == 0) invalid_window
  fail_if (ltb u64_max (units * scale_millis)) invalid_window
  ok (units * scale_millis * nanos_per_milli)

unfoldable pub parse_window : Text → WindowParseMode → Result LimitParseError ℕ
parse_window value mode =
    let value = to_ascii_lowercase (trim value) in
    elim (named_window value) [
      | some millis ↦ ok (millis * nanos_per_milli)
      | none ↦ elim (number_and_scale value mode) [
        | none ↦ err invalid_window
        | some split ↦ scaled_window split.0 split.1
      ]
    ]

-- The limit that two sides of a `/` write.
unfoldable pub parse_fixed : Text → Text → WindowParseMode → Result LimitParseError LimitSpec
parse_fixed count window mode = do
  count ← ok_or (parse_unsigned u32_max (trim count)) invalid_count
  fail_if (count == 0) invalid_count
  window ← parse_window window mode
  ok (fixed count window)

unfoldable pub parse_limit_spec_with_mode :
    Text → WindowParseMode → Result LimitParseError LimitSpec
parse_limit_spec_with_mode value mode =
    let value = trim value in
    if is_empty value
    then err LimitParseError.empty
    else if is_one_of (to_ascii_lowercase value)
        (codes "unlimited" ∷ codes "none" ∷ codes "off" ∷ [])
    then ok unlimited
    else elim (split_once b'/' value) [
      | none ↦ err invalid_window
      | some halves ↦ parse_fixed halves.0 halves.1 mode
    ]

unfoldable pub parse_limit_spec : Text → Result LimitParseError LimitSpec
parse_limit_spec value = parse_limit_spec_with_mode value permissive_bare_seconds

unfoldable pub parse_limit_spec_strict : Text → Result LimitParseError LimitSpec
parse_limit_spec_strict value = parse_limit_spec_with_mode value strict_suffix
