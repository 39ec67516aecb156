-- ===== src/Passwords/LineEnds.antt =====
-- What crates/auth-password-core/src/lib.rs reads in a line does not depend on its end.
use mathlib.Core.List.{reverse, reverse-append, reverse-cons}
use world_infra.Prelude.{
  ℕ, ◌+◌, ◌≤◌, ◌≡◌, refl, sym, ap, ◌∙◌, true, false, some, List, [], ◌∷◌, ◌++◌, ◌==◌, ==_iff,
  Bool-cases, ◌⊎◌, inl, inr, arith,
}
use world_infra.Text.{Text, byte_length, is_whitespace, trim_start, trim}
use world_infra.Text.Scan.{split_once}
use world_infra.Passwords.Breaches.{
  before_count, normalize_sha1_hash, breached_hash_from_line, strip_return, ok_option,
}

trim_start_snoc :
    (s : Text) (w : ℕ)
    → is_whitespace w ≡ true
    → (trim_start (s ++ w ∷ []) ≡ trim_start s ++ w ∷ [])
      ⊎ ((trim_start (s ++ w ∷ []) ≡ []) × (trim_start s ≡ []))
unfolding trim_start
trim_start_snoc [] w h = inr (rw h refl, refl)
trim_start_snoc (c ∷ s) w h = elim (Bool-cases (is_whitespace c)) [
  | inl blank ↦ rw blank (trim_start_snoc s w h)
  | inr plain ↦ rw plain (inl refl)
]

-- White space at the end is trimmed.
trim_snoc : (s : Text) (w : ℕ) → is_whitespace w ≡ true → trim (s ++ w ∷ []) ≡ trim s
unfolding trim trim_start
trim_snoc s w h = elim (trim_start_snoc s w h) [
  | inl kept ↦
      ap (λ t. reverse (trim_start (reverse t))) kept
      ∙ ap (λ t. reverse (trim_start t)) (reverse-append (trim_start s) (w ∷ []))
      ∙ rw h refl
  | inr (gone, empty) ↦ rw (gone, empty) refl
]

before_count-cons :
    (c : ℕ) (s : Text) → (c == b':') ≡ false → before_count (c ∷ s) ≡ c ∷ before_count s
unfolding split_once
before_count-cons c s h = ground (arith, h)

before_count-colon : (c : ℕ) (s : Text) → (c == b':') ≡ true → before_count (c ∷ s) ≡ []
unfolding split_once
before_count-colon c s h = ground (arith, h)

before_count-snoc :
    (s : Text) (w : ℕ)
    → (w == b':') ≡ false
    → (before_count (s ++ w ∷ []) ≡ before_count s)
      ⊎ (before_count (s ++ w ∷ []) ≡ before_count s ++ w ∷ [])
unfolding split_once
before_count-snoc [] w h = inr (before_count-cons w [] h)
before_count-snoc (c ∷ s) w h = elim (Bool-cases (c == b':')) [
  | inl colon ↦ inl (before_count-colon c (s ++ w ∷ []) colon ∙ sym (before_count-colon c s colon))
  | inr plain ↦
      let there = before_count-cons c (s ++ w ∷ []) plain in
      let here = before_count-cons c s plain in
      elim (before_count-snoc s w h) [
        | inl same ↦ inl (there ∙ ap (c ∷◌) same ∙ sym here)
        | inr longer ↦ inr (there ∙ ap (c ∷◌) longer ∙ ap (λ t. t ++ w ∷ []) (sym here))
      ]
]

-- White space at the end of a line does not change its hash.
pub breached_hash_from_line-snoc :
    (s : Text) (w : ℕ)
    → is_whitespace w ≡ true
    → (w == b':') ≡ false
    → breached_hash_from_line (s ++ w ∷ []) ≡ breached_hash_from_line s
unfolding breached_hash_from_line
breached_hash_from_line-snoc s w h k = elim (before_count-snoc s w k) [
  | inl same ↦ ap (λ t. ok_option (normalize_sha1_hash (trim t))) same
  | inr longer ↦
      ap (λ t. ok_option (normalize_sha1_hash (trim t))) longer
      ∙ ap (λ t. ok_option (normalize_sha1_hash t)) (trim_snoc (before_count s) w h)
]

pub strip_return-cases :
    (body : List ℕ)
    → (strip_return body ≡ body)
      ⊎ ((front : List ℕ) × (body ≡ front ++ b'\r' ∷ []) × (strip_return body ≡ front))
strip_return-cases [] = inl refl
strip_return-cases (byte ∷ []) = elim (Bool-cases (byte == b'\r')) [
  | inl return ↦ inr ([], ap (λ b. b ∷ []) ((==_iff byte b'\r').0 return), rw return refl)
  | inr plain ↦ inl (rw plain refl)
]
strip_return-cases (byte ∷ next ∷ body) = elim (strip_return-cases (next ∷ body)) [
  | inl same ↦ inl (ap (byte ∷◌) same)
  | inr (front, e, f) ↦ inr (byte ∷ front, ap (byte ∷◌) e, ap (byte ∷◌) f)
]

byte_length-append : (s t : Text) → byte_length (s ++ t) ≡ byte_length s + byte_length t
byte_length-append [] t = omega arith
byte_length-append (c ∷ s) t = omega (arith, byte_length-append s t)

byte_length-reverse : (s : Text) → byte_length (reverse s) ≡ byte_length s
byte_length-reverse [] = refl
byte_length-reverse (c ∷ s) = omega (
  arith,
  ap byte_length (reverse-cons c s),
  byte_length-append (reverse s) (c ∷ []),
  byte_length-reverse s,
)

byte_length-trim_start : (s : Text) → byte_length (trim_start s) ≤ byte_length s
unfolding trim_start
byte_length-trim_start [] = omega arith
byte_length-trim_start (c ∷ s) = ground (arith, byte_length-trim_start s)

byte_length-trim : (s : Text) → byte_length (trim s) ≤ byte_length s
unfolding trim
byte_length-trim s = omega (
  arith,
  byte_length-reverse (trim_start (reverse (trim_start s))),
  byte_length-trim_start (reverse (trim_start s)),
  byte_length-reverse (trim_start s),
  byte_length-trim_start s,
)

byte_length-before_count : (s : Text) → byte_length (before_count s) ≤ byte_length s
unfolding split_once
byte_length-before_count [] = omega arith
byte_length-before_count (c ∷ s) = elim (Bool-cases (c == b':')) [
  | inl colon ↦ omega (arith, ap byte_length (before_count-colon c s colon))
  | inr plain ↦
      omega (arith, ap byte_length (before_count-cons c s plain), byte_length-before_count s)
]

-- A line with a hash has at least the 40 characters of the hash.
pub hash_long : (s hash : Text) → breached_hash_from_line s ≡ some hash → 40 ≤ byte_length s
unfolding breached_hash_from_line normalize_sha1_hash
hash_long s hash h =
    let kept = trim (trim (before_count s)) in
    elim (Bool-cases (byte_length kept == 40)) [
      | inl sized ↦ omega (
        arith,
        (==_iff (byte_length kept) 40).0 sized,
        byte_length-trim (trim (before_count s)),
        byte_length-trim (before_count s),
        byte_length-before_count s,
      )
      | inr other ↦ absurd (ground (arith, h, other))
    ]
