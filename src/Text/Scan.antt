-- ===== src/Text/Scan.antt =====
-- What the parsers use of `str`: case, splitting, suffixes and `parse` for unsigned numbers.
use mathlib.Core.List.{reverse}
use world_infra.Prelude.{
  ℕ, ◌+◌, ◌-◌, ◌*◌, Bool, false, ◌&&◌, ◌||◌, Option, none, some, is_some, List, [], ◌∷◌, ◌++◌, map,
  leb, ◌==◌, if◌then◌else◌,
}
use world_infra.Text.{Text, codes, is_empty}

abbrev pub ascii_lower : ℕ → ℕ
ascii_lower c = if leb b'A' c && leb c b'Z' then c + 32 else c

abbrev pub to_ascii_lowercase : Text → Text
to_ascii_lowercase s = map ascii_lower s

-- `str::split_once` at a character
unfoldable pub split_once : ℕ → Text → Option (Text × Text)
split_once separator [] = none
split_once separator (c ∷ s) =
    let rest = split_once separator s in
    if c == separator
    then some ([], s)
    else elim rest [ none ↦ none | some halves ↦ some (c ∷ halves.0, halves.1) ]

unfoldable pub strip_prefix : Text → Text → Option Text
strip_prefix [] s = some s
strip_prefix (p ∷ prefix) [] = none
strip_prefix (p ∷ prefix) (c ∷ s) =
    let rest = strip_prefix prefix s in if p == c then rest else none

unfoldable pub strip_suffix : Text → Text → Option Text
strip_suffix suffix s = elim (strip_prefix (reverse suffix) (reverse s)) [
  | none ↦ none
  | some rest ↦ some (reverse rest)
]

-- The digits of a number of at most `limit`, after those that make `value`.
unfoldable pub parse_digits : ℕ → ℕ → Text → Option ℕ
parse_digits limit value [] = some value
parse_digits limit value (c ∷ s) =
    let next = value * 10 + (c - b'0') in
    let rest = parse_digits limit next s in
    if leb b'0' c && leb c b'9' && leb next limit then rest else none

-- `str::parse` for an unsigned integer type: a `+` may stand in front of the digits.
unfoldable pub parse_unsigned : ℕ → Text → Option ℕ
parse_unsigned limit [] = none
parse_unsigned limit (c ∷ s) =
    if c == b'+'
    then (if is_empty s then none else parse_digits limit 0 s)
    else parse_digits limit 0 (c ∷ s)

abbrev pub is_ascii_lowercase : ℕ → Bool
is_ascii_lowercase c = leb b'a' c && leb c b'z'

abbrev pub is_ascii_uppercase : ℕ → Bool
is_ascii_uppercase c = leb b'A' c && leb c b'Z'

abbrev pub is_ascii_digit : ℕ → Bool
is_ascii_digit c = leb b'0' c && leb c b'9'

-- `Iterator::find` on characters.
abbrev pub find : (ℕ → Bool) → Text → Option ℕ
find p [] = none
find p (ch ∷ chars) = if p ch then some ch else find p chars

-- `str::starts_with` and `str::ends_with` for a character.
abbrev pub starts_with : ℕ → Text → Bool
starts_with ch [] = false
starts_with ch (c ∷ s) = c == ch

abbrev pub ends_with : ℕ → Text → Bool
ends_with ch [] = false
ends_with ch (c ∷ []) = c == ch
ends_with ch (c ∷ d ∷ s) = ends_with ch (d ∷ s)

-- `str::split` at a character: at least one part, and one more than there are separators.
abbrev pub head_onto : ℕ → List Text → List Text
head_onto c [] = (c ∷ []) ∷ []
head_onto c (part ∷ parts) = (c ∷ part) ∷ parts

unfoldable pub split : ℕ → Text → List Text
split separator [] = [] ∷ []
split separator (c ∷ s) =
    if c == separator then [] ∷ split separator s else head_onto c (split separator s)

-- `slice::join` with a character.
unfoldable pub join : ℕ → List Text → Text
join separator [] = []
join separator (part ∷ []) = part
join separator (part ∷ next ∷ parts) = part ++ separator ∷ join separator (next ∷ parts)

-- `str::replace` of a character by a text.
unfoldable pub replace : ℕ → Text → Text → Text
replace ch new [] = []
replace ch new (c ∷ s) = if c == ch then new ++ replace ch new s else c ∷ replace ch new s

-- `str::trim_matches` for a character.
unfoldable pub trim_start_matches : ℕ → Text → Text
trim_start_matches ch [] = []
trim_start_matches ch (c ∷ s) = if c == ch then trim_start_matches ch s else c ∷ s

unfoldable pub trim_matches : ℕ → Text → Text
trim_matches ch s = reverse (trim_start_matches ch (reverse (trim_start_matches ch s)))

-- `str::contains` for a text.
abbrev pub contains : Text → Text → Bool
contains needle [] = is_empty needle
contains needle (c ∷ s) = is_some (strip_prefix needle (c ∷ s)) || contains needle s

-- `str::split_once` at `://`: what stands in front of the first one, and behind it.
unfoldable pub split_scheme : Text → Option (Text × Text)
split_scheme [] = none
split_scheme (c ∷ s) =
    let rest = split_scheme s in
    elim (strip_prefix (codes "://") (c ∷ s)) [
      | some behind ↦ some ([], behind)
      | none ↦ elim rest [ none ↦ none | some halves ↦ some (c ∷ halves.0, halves.1) ]
    ]

-- `str::rsplit_once` at a character: what stands in front of the last one, and behind it.
unfoldable pub rsplit_once : ℕ → Text → Option (Text × Text)
rsplit_once separator s = elim (split_once separator (reverse s)) [
  | none ↦ none
  | some halves ↦ some (reverse halves.1, reverse halves.0)
]
