-- ===== src/EventFanout/Messages.antt =====
-- The messages of failures: a prefix that fits, and the longest that does.
use world_infra.Prelude.{
  ℕ, ◌+◌, ◌≡◌, refl, sym, ap, subst, ◌≤◌, ◌<◌, ◌⊎◌, inl, inr, true, false, [], ◌∷◌, ◌++◌, leb, ltb,
  leb→le, ltb→lt, ltb→le, Bool-cases, arith,
}
use world_infra.Text.{Text, byte_length, utf8_width}
use world_infra.Text.Laws.{utf8_width-pos}
use world_infra.EventFanout.{
  FanoutFailureKind, new_fanout_failure, char_indices, take_while, last_or, truncate,
}

-- The last index of a character that is at most `max`, for a text that starts at `index`.
cut : ℕ → ℕ → ℕ → Text → ℕ
cut max default index s = last_or default (take_while (λ i. leb i max) (char_indices index s))

cut_cons_in :
    (max default index c : ℕ) (s : Text)
    → index ≤ max
    → cut max default index (c ∷ s) ≡ cut max index (index + utf8_width c) s
unfolding cut char_indices take_while last_or
cut_cons_in max default index c s h = ground arith

cut_cons_out :
    (max default index c : ℕ) (s : Text) → max < index → cut max default index (c ∷ s) ≡ default
unfolding cut char_indices take_while last_or
cut_cons_out max default index c s h = ground arith

cut_out : (max default index : ℕ) (s : Text) → max < index → cut max default index s ≡ default
unfolding cut char_indices take_while last_or
cut_out max default index [] h = refl
cut_out max default index (c ∷ s) h = cut_cons_out max default index c s h

cut_nil : (max default index : ℕ) → cut max default index [] ≡ default
unfolding cut char_indices take_while last_or
cut_nil max default index = refl

cut_above : (max default index : ℕ) (s : Text) → default ≤ index → default ≤ cut max default index s
cut_above max default index [] h = rw (cut_nil max default index) (omega arith)
cut_above max default index (c ∷ s) h = elim (Bool-cases (leb index max)) [
  | inl inside ↦
      rw (cut_cons_in max default index c s (leb→le index max inside))
        (omega (arith, h, cut_above max index (index + utf8_width c) s (omega arith)))
  | inr outside ↦ rw (cut_cons_out max default index c s (ground arith)) (omega arith)
]

leb_refl : (index : ℕ) → leb index index ≡ true
leb_refl index = ground arith

-- The cut lies behind the first character when the second one starts in time.
past_start :
    (max index c : ℕ) (s : Text)
    → index + utf8_width c ≤ max
    → max < index + byte_length (c ∷ s)
    → leb (cut max index (index + utf8_width c) s) index ≡ false
past_start max index c [] h l = absurd (omega (arith, h, l))
past_start max index c (d ∷ s) h l =
    let next = index + utf8_width c in
    rw (cut_cons_in max index next d s h)
      (ground (arith, cut_above max next (next + utf8_width d) s (omega arith), utf8_width-pos c))

-- A text that is cut where the next character would not fit: what is kept, and what is cut off.
pub record IsCut (max index : ℕ) (s kept : Text) : Type 0 where
  pub next : ℕ
  pub rest : Text
  pub whole : s ≡ kept ++ next ∷ rest
  pub fits : index + byte_length kept ≤ max
  pub tight : max < index + (byte_length kept + utf8_width next)

IsCut-cons :
    (max index c : ℕ) (s kept : Text)
    → IsCut max (index + utf8_width c) s kept
    → IsCut max index (c ∷ s) (c ∷ kept)
IsCut-cons max index c s kept cut = record {
  next = cut.next;
  rest = cut.rest;
  whole = ap (c ∷◌) cut.whole;
  fits = omega (arith, cut.fits);
  tight = omega (arith, cut.tight);
}

truncate-IsCut :
    (max index default : ℕ) (s : Text)
    → index ≤ max
    → max < index + byte_length s
    → IsCut max index s (truncate (cut max default index s) index s)
unfolding truncate
truncate-IsCut max index default [] h l = absurd (omega arith)
truncate-IsCut max index default (c ∷ s) h l =
    let next = index + utf8_width c in
    subst (λ a. IsCut max index (c ∷ s) (truncate a index (c ∷ s)))
      (sym (cut_cons_in max default index c s h))
      (elim (Bool-cases (leb next max)) [
        | inl inside ↦ rw (past_start max index c s (leb→le next max inside) l) (
            IsCut-cons max index c s (truncate (cut max index next s) next s)
              (truncate-IsCut max next index s (leb→le next max inside) (omega (arith, l))))
        | inr outside ↦
            rw (cut_out max index next s (ground arith), leb_refl index)
              (record {
                next = c;
                rest = s;
                whole = refl;
                fits = omega (arith, h);
                tight = ground arith;
              })
      ])

-- The message of a failure is the text itself when it has at most 1024 bytes, and else the longest
-- prefix of whole characters with at most 1024 bytes.
pub new_fanout_failure-IsCut :
    (kind : FanoutFailureKind) (message : Text)
    → (byte_length message ≤ 1024) × ((new_fanout_failure kind message).message ≡ message)
      ⊎ (1024 < byte_length message)
        × IsCut 1024 0 message (new_fanout_failure kind message).message
unfolding new_fanout_failure cut
new_fanout_failure-IsCut kind message = elim (Bool-cases (ltb 1024 (byte_length message))) [
  | inl long ↦ inr (
    ltb→lt 1024 (byte_length message) long,
    rw long (truncate-IsCut 1024 0 0 message (omega arith) (ground arith)),
  )
  | inr short ↦ inl (ltb→le 1024 (byte_length message) short, rw short refl)
]
