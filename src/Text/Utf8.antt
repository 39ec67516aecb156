-- ===== src/Text/Utf8.antt =====
-- The UTF-8 form of a text (`str::as_bytes`), which can be read back from the front of longer bytes.
use world_infra.Prelude.{
  ℕ, ◌+◌, ◌/◌, ◌%◌, ◌≡◌, refl, sym, ap, ◌∙◌, inl, inr, true, false, Bool-cases, List, [], ◌∷◌, ◌++◌,
  append_assoc, length, length-append, ltb, arith, if◌then◌else◌,
}
use world_infra.Text.Laws.{utf8_width-pos}
use world_infra.Text.{Text, utf8_width, byte_length}

-- The first byte of a character, and the others.
abbrev lead : ℕ → ℕ
lead c =
    if ltb c 0x80
    then c
    else if ltb c 0x800
    then 192 + c / 64
    else if ltb c 0x10000
    then 224 + c / 4096
    else 240 + c / 262144

abbrev trail : ℕ → List ℕ
trail c =
    if ltb c 0x80
    then []
    else if ltb c 0x800
    then (128 + c % 64) ∷ []
    else if ltb c 0x10000
    then (128 + c / 64 % 64) ∷ (128 + c % 64) ∷ []
    else (128 + c / 4096 % 64) ∷ (128 + c / 64 % 64) ∷ (128 + c % 64) ∷ []

unfoldable pub as_bytes : Text → List ℕ
as_bytes [] = []
as_bytes (c ∷ s) = lead c ∷ (trail c ++ as_bytes s)

abbrev width_of_lead : ℕ → ℕ
width_of_lead b = if ltb b 128 then 1 else if ltb b 224 then 2 else if ltb b 240 then 3 else 4

lead_width : (c : ℕ) → utf8_width c ≡ width_of_lead (lead c)
lead_width c = ground arith

length-trail : (c : ℕ) → length (trail c) + 1 ≡ utf8_width c
length-trail c = ground arith

pub length-as_bytes : (s : Text) → length (as_bytes s) ≡ byte_length s
unfolding as_bytes
length-as_bytes [] = refl
length-as_bytes (c ∷ s) =
    omega (arith, length-append (trail c) (as_bytes s), length-trail c, length-as_bytes s)

pub cons_injective : {a b : ℕ} {s t : List ℕ} → a ∷ s ≡ b ∷ t → (a ≡ b) × (s ≡ t)
cons_injective h = (cc, cc)

-- A character is told from its bytes, whatever follows.
char_injective :
    (c d : ℕ) (x y : List ℕ) → lead c ≡ lead d → trail c ++ x ≡ trail d ++ y → (c ≡ d) × (x ≡ y)
char_injective c d x y e f = elim (Bool-cases (ltb c 0x80)) [
  | inl a ↦
      let b : ltb d 0x80 ≡ true = ground (arith, e, a) in (ground (arith, e, a, b), rw (a, b) at f)
  | inr a ↦ elim (Bool-cases (ltb c 0x800)) [
    | inl a2 ↦
        let b : ltb d 0x80 ≡ false = ground (arith, e, a, a2) in
        let b2 : ltb d 0x800 ≡ true = ground (arith, e, a, a2) in
        let (p, rest) = cons_injective (rw (a, a2, b, b2) at f) in
        (ground (arith, e, a, a2, b, b2, p), rest)
    | inr a2 ↦ elim (Bool-cases (ltb c 0x10000)) [
      | inl a3 ↦
          let b : ltb d 0x80 ≡ false = ground (arith, e, a, a2, a3) in
          let b2 : ltb d 0x800 ≡ false = ground (arith, e, a, a2, a3) in
          let b3 : ltb d 0x10000 ≡ true = ground (arith, e, a, a2, a3) in
          let (p, g) = cons_injective (rw (a, a2, a3, b, b2, b3) at f) in
          let (q, rest) = cons_injective g in (ground (arith, e, a, a2, a3, b, b2, b3, p, q), rest)
      | inr a3 ↦
          let b : ltb d 0x80 ≡ false = ground (arith, e, a, a2, a3) in
          let b2 : ltb d 0x800 ≡ false = ground (arith, e, a, a2, a3) in
          let b3 : ltb d 0x10000 ≡ false = ground (arith, e, a, a2, a3) in
          let (p, g) = cons_injective (rw (a, a2, a3, b, b2, b3) at f) in
          let (q, h) = cons_injective g in
          let (r, rest) = cons_injective h in
          (ground (arith, e, a, a2, a3, b, b2, b3, p, q, r), rest)
    ]
  ]
]

-- Two texts of one length are told apart by their bytes, whatever follows.
pub as_bytes-injective :
    (s t : Text) (u v : List ℕ)
    → byte_length s ≡ byte_length t
    → as_bytes s ++ u ≡ as_bytes t ++ v
    → (s ≡ t) × (u ≡ v)
unfolding as_bytes
as_bytes-injective [] [] u v l e = (refl, e)
as_bytes-injective [] (d ∷ t) u v l e = absurd (omega (arith, utf8_width-pos d))
as_bytes-injective (c ∷ s) [] u v l e = absurd (omega (arith, utf8_width-pos c))
as_bytes-injective (c ∷ s) (d ∷ t) u v l e =
    let (heads, tails) = cons_injective e in
    let whole =
      sym (append_assoc (trail c) (as_bytes s) u) ∙ tails ∙ append_assoc (trail d) (as_bytes t) v in
    let (same, rest) = char_injective c d (as_bytes s ++ u) (as_bytes t ++ v) heads whole in
    let width : utf8_width c ≡ utf8_width d = ap utf8_width same in
    let (texts, ends) = as_bytes-injective s t u v (omega (arith, l, width)) rest in (cc, ends)
