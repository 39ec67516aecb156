-- ===== src/Text/Split.antt =====
-- Splitting a text at a character and joining the parts.
use world_infra.Prelude.{
  ℕ, ◌≡◌, refl, sym, ap, ◌∙◌, subst, inl, inr, Bool, true, false, ◌||◌, List, [], ◌∷◌, ◌++◌, any,
  all, ◌==◌, ==_iff, Bool-cases, arith,
}
use world_infra.Text.{Text}
use world_infra.Text.Scan.{split, join}

pub split_cons :
    (separator : ℕ) (s : Text)
    → (part : Text) × (parts : List Text) × (split separator s ≡ part ∷ parts)
unfolding split
split_cons separator [] = ([], [], refl)
split_cons separator (c ∷ s) =
    let (part, parts, e) = split_cons separator s in
    elim (Bool-cases (c == separator)) [
      | inl here ↦ rw here ([], split separator s, refl)
      | inr past ↦ rw (past, e) (c ∷ part, parts, refl)
    ]

join_head :
    (separator c : ℕ) (part : Text) (parts : List Text)
    → join separator ((c ∷ part) ∷ parts) ≡ c ∷ join separator (part ∷ parts)
unfolding join
join_head separator c part [] = refl
join_head separator c part (next ∷ parts) = refl

-- The parts of a text, joined again, are the text.
pub join-split : (separator : ℕ) (s : Text) → join separator (split separator s) ≡ s
unfolding split join
join-split separator [] = refl
join-split separator (c ∷ s) =
    let (part, parts, e) = split_cons separator s in
    let again : join separator (part ∷ parts) ≡ s =
      subst (λ ps. join separator ps ≡ s) e (join-split separator s) in
    elim (Bool-cases (c == separator)) [
      | inl here ↦ rw (here, e) (rw again (ap (◌∷ s) (sym ((==_iff c separator).0 here))))
      | inr past ↦ rw (past, e) (join_head separator c part parts ∙ ap (c ∷◌) again)
    ]

-- Every character of a text is in a class or a separator when its parts are in the class.
pub all-split :
    (p : ℕ → Bool) (separator : ℕ) (s : Text)
    → all (all p) (split separator s) ≡ true
    → all (λ c. p c || c == separator) s ≡ true
unfolding split
all-split p separator [] h = refl
all-split p separator (c ∷ s) h =
    let (part, parts, e) = split_cons separator s in
    elim (Bool-cases (c == separator)) [
      | inl here ↦ ground (arith, all-split p separator s, here)
      | inr past ↦ ground (arith, all-split p separator s, past, e)
    ]

pub split_plain :
    (separator : ℕ) (s : Text) → any (λ c. c == separator) s ≡ false → split separator s ≡ s ∷ []
unfolding split
split_plain separator [] h = refl
split_plain separator (c ∷ s) h = ground (arith, split_plain separator s)

pub split-append :
    (separator : ℕ) (s t : Text)
    → any (λ c. c == separator) s ≡ false
    → split separator (s ++ separator ∷ t) ≡ s ∷ split separator t
unfolding split
split-append separator [] t h = rw ((==_iff separator separator).1 refl) refl
split-append separator (c ∷ s) t h = ground (arith, split-append separator s t)

-- Parts without the separator, joined, are split into the same parts.
pub split-join :
    (separator : ℕ) (part : Text) (parts : List Text)
    → any (any (λ c. c == separator)) (part ∷ parts) ≡ false
    → split separator (join separator (part ∷ parts)) ≡ part ∷ parts
unfolding join
split-join separator part [] h = split_plain separator part (ground arith)
split-join separator part (next ∷ parts) h =
    split-append separator part (join separator (next ∷ parts)) (ground arith)
    ∙ ap (part ∷◌) (split-join separator next parts (ground arith))

-- A separator parts a text into the parts in front of it and those behind it.
pub split-append_both :
    (separator : ℕ) (s t : Text)
    → split separator (s ++ separator ∷ t) ≡ split separator s ++ split separator t
unfolding split
split-append_both separator [] t = rw ((==_iff separator separator).1 refl) refl
split-append_both separator (c ∷ s) t =
    let (part, parts, e) = split_cons separator s in
    elim (Bool-cases (c == separator)) [
      | inl here ↦ rw (here, split-append_both separator s t) refl
      | inr past ↦ rw (past, split-append_both separator s t, e) refl
    ]
