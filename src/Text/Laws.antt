-- ===== src/Text/Laws.antt =====
-- Equality of texts, and what trimming leaves alone.
use mathlib.Core.List.{reverse, reverse-cons, reverse-reverse, reverse-append}
use world_infra.Prelude.{
  ◌<◌, ◌++◌, ◌∙◌, sym, Bool-cases, inl, inr, ℕ, Bool, false, any, ap, ◌≡◌, refl, subst, ◌↔◌, true,
  [], ◌∷◌, arith, ==_iff,
}
use world_infra.Text.{
  Text, text_eq, byte_length, utf8_width, is_whitespace, trim_start, trim, is_empty,
}

pub text_eq→eq : (s t : Text) → text_eq s t ≡ true → s ≡ t
text_eq→eq [] [] h = refl
text_eq→eq [] (d ∷ t) h = cc
text_eq→eq (c ∷ s) [] h = cc
text_eq→eq (c ∷ s) (d ∷ t) h = ground (arith, ==_iff c d, text_eq→eq s t)

pub text_eq_refl : (s : Text) → text_eq s s ≡ true
text_eq_refl [] = refl
text_eq_refl (c ∷ s) = ground (arith, text_eq_refl s)

pub text_eq_iff : (s t : Text) → (text_eq s t ≡ true) ↔ (s ≡ t)
text_eq_iff s t = (text_eq→eq s t, λ e. subst (λ u. text_eq s u ≡ true) e (text_eq_refl s))

pub any-append :
    (p : ℕ → Bool) (s t : Text) → any p s ≡ false → any p t ≡ false → any p (s ++ t) ≡ false
any-append p [] t h k = k
any-append p (c ∷ s) t h k = ground (arith, any-append p s t)

any-reverse : (p : ℕ → Bool) (s : Text) → any p s ≡ false → any p (reverse s) ≡ false
any-reverse p [] h = h
any-reverse p (c ∷ s) h =
    rw (reverse-cons c s)
      (any-append p (reverse s) (c ∷ []) (any-reverse p s (ground arith)) (ground arith))

trim_start_of_plain : (s : Text) → any is_whitespace s ≡ false → trim_start s ≡ s
unfolding trim_start
trim_start_of_plain [] h = refl
trim_start_of_plain (c ∷ s) h = ground arith

-- A text with no white space is left as it is.
pub trim_of_plain : (s : Text) → any is_whitespace s ≡ false → trim s ≡ s
unfolding trim
trim_of_plain s h =
    rw (trim_start_of_plain s h, trim_start_of_plain (reverse s) (any-reverse is_whitespace s h))
      (reverse-reverse s)

pub utf8_width-pos : (c : ℕ) → 0 < utf8_width c
utf8_width-pos c = ground arith

-- Two texts of one length in bytes, each followed by something, can be told apart from it.
pub append_injective :
    (s t u v : Text) → byte_length s ≡ byte_length t → s ++ u ≡ t ++ v → (s ≡ t) × (u ≡ v)
append_injective [] [] u v l e = (refl, e)
append_injective [] (d ∷ t) u v l e = absurd (omega (arith, utf8_width-pos d))
append_injective (c ∷ s) [] u v l e = absurd (omega (arith, utf8_width-pos c))
append_injective (c ∷ s) (d ∷ t) u v l e =
    let same : c ≡ d = cc in
    let width : utf8_width c ≡ utf8_width d = ap utf8_width same in
    let rest = append_injective s t u v (omega arith) (cc) in (cc, rest.1)

-- A text that does not start with white space.
abbrev IsTight : Text → Type 0
IsTight [] = Unit
IsTight (c ∷ s) = is_whitespace c ≡ false

trim_start-IsTight : (s : Text) → IsTight (trim_start s)
unfolding trim_start
trim_start-IsTight [] = tt
trim_start-IsTight (c ∷ s) = elim (Bool-cases (is_whitespace c)) [
  | inl blank ↦ rw blank (trim_start-IsTight s)
  | inr solid ↦ rw solid solid
]

trim_start_of_tight : (s : Text) → IsTight s → trim_start s ≡ s
unfolding trim_start
trim_start_of_tight [] h = refl
trim_start_of_tight (c ∷ s) h = rw h refl

trim_start-suffix : (s : Text) → (a : Text) × (s ≡ a ++ trim_start s)
unfolding trim_start
trim_start-suffix [] = ([], refl)
trim_start-suffix (c ∷ s) =
    let (a, e) = trim_start-suffix s in
    elim (Bool-cases (is_whitespace c)) [
      | inl blank ↦ rw blank (c ∷ a, ap (◌∷◌ c) e)
      | inr solid ↦ rw solid ([], refl)
    ]

IsTight-prefix : (w a : Text) → IsTight (w ++ a) → IsTight w
IsTight-prefix [] a h = tt
IsTight-prefix (c ∷ w) a h = h

-- A trimmed text stays as it is.
pub trim-trim : (s : Text) → trim (trim s) ≡ trim s
unfolding trim
trim-trim s =
    let u = trim_start s in
    let v = trim_start (reverse u) in
    let (a, e) = trim_start-suffix (reverse u) in
    let whole : u ≡ reverse v ++ reverse a =
      sym (reverse-reverse u) ∙ ap reverse e ∙ reverse-append a v in
    let front : trim_start (reverse v) ≡ reverse v =
      trim_start_of_tight (reverse v)
        (IsTight-prefix (reverse v) (reverse a) (subst IsTight whole (trim_start-IsTight s))) in
    ap (λ t. reverse (trim_start (reverse t))) front
    ∙ ap (λ t. reverse (trim_start t)) (reverse-reverse v)
    ∙ ap reverse (trim_start_of_tight v (trim_start-IsTight (reverse u)))

any-suffix : (p : ℕ → Bool) (a s : Text) → any p (a ++ s) ≡ false → any p s ≡ false
any-suffix p [] s h = h
any-suffix p (c ∷ a) s h = any-suffix p a s (ground arith)

any-trim_start : (p : ℕ → Bool) (s : Text) → any p s ≡ false → any p (trim_start s) ≡ false
any-trim_start p s h =
    let (a, e) = trim_start-suffix s in
    any-suffix p a (trim_start s) (subst (λ t. any p t ≡ false) e h)

-- Trimming adds no character.
pub any-trim : (p : ℕ → Bool) (s : Text) → any p s ≡ false → any p (trim s) ≡ false
unfolding trim
any-trim p s h = any-reverse p (trim_start (reverse (trim_start s))) (
    any-trim_start p (reverse (trim_start s)) (any-reverse p (trim_start s) (any-trim_start p s h)))

is_empty-snoc : (s : Text) (c : ℕ) → is_empty (s ++ c ∷ []) ≡ false
is_empty-snoc [] c = refl
is_empty-snoc (d ∷ s) c = refl

trim_start-append :
    (s t : Text) → any is_whitespace s ≡ false → is_empty s ≡ false → trim_start (s ++ t) ≡ s ++ t
unfolding trim_start
trim_start-append [] t h k = absurd cc
trim_start-append (c ∷ s) t h k = ground arith

-- A text is left as it is when it starts with a plain character and ends in a plain text.
pub trim_of_ends :
    (c : ℕ) (s t : Text)
    → is_whitespace c ≡ false
    → any is_whitespace t ≡ false
    → is_empty t ≡ false
    → trim (c ∷ (s ++ t)) ≡ c ∷ (s ++ t)
unfolding trim trim_start
trim_of_ends c s [] h plain k = absurd cc
trim_of_ends c s (d ∷ t) h plain k =
    let u = c ∷ (s ++ d ∷ t) in
    let turned : reverse u ≡ reverse (d ∷ t) ++ reverse (c ∷ s) = reverse-append (c ∷ s) (d ∷ t) in
    let solid : is_empty (reverse (d ∷ t)) ≡ false =
      rw (reverse-cons d t) (is_empty-snoc (reverse t) d) in
    let same : trim_start (reverse u) ≡ reverse u =
      ap trim_start turned
      ∙ trim_start-append (reverse (d ∷ t)) (reverse (c ∷ s))
          (any-reverse is_whitespace (d ∷ t) plain) solid
      ∙ sym turned in
    rw h (ap reverse same ∙ reverse-reverse u)
