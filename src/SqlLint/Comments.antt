-- ===== src/SqlLint/Comments.antt =====
-- crates/scoped-sql-lint/src/lib.rs: where the comment of a line of Rust starts, past string literals.
-- The bytes that the scanner looks for are ASCII, so a line is read by characters; an index into it is
-- the text from there on.
use world_infra.Prelude.{
  ℕ, zero, suc, ◌≡◌, refl, ap, ◌∙◌, ◌≤◌, ◌<◌, inl, inr, Bool, false, not, ◌&&◌, Option, none, some,
  Option-cases, is_some_and, [], ◌∷◌, any, length, ◌==◌, arith, if◌then◌else◌,
}
use world_infra.Text.{Text}
use world_infra.Text.Scan.{starts_with, contains}

unfoldable pub quoted_string_end : Bool → Text → Text
quoted_string_end escaped [] = []
quoted_string_end escaped (c ∷ s) =
    let rest = quoted_string_end (not escaped && c == b'\\') s in
    if not escaped && c == b'"' then s else rest

-- How many `#` stand in front, and what is behind them.
unfoldable pub skip_hashes : Text → ℕ × Text
skip_hashes [] = (0, [])
skip_hashes (c ∷ s) =
    let rest = skip_hashes s in if c == b'#' then (suc (rest.0), rest.1) else (0, c ∷ s)

unfoldable pub strip_hashes : ℕ → Text → Option Text
strip_hashes zero s = some s
strip_hashes (suc hashes) [] = none
strip_hashes (suc hashes) (c ∷ s) =
    let rest = strip_hashes hashes s in if c == b'#' then rest else none

unfoldable pub raw_body_end : ℕ → Text → Text
raw_body_end hashes [] = []
raw_body_end hashes (c ∷ s) =
    let rest = raw_body_end hashes s in
    if c == b'"' then elim (strip_hashes hashes s) [ none ↦ rest | some behind ↦ behind ] else rest

abbrev pub raw_opened : ℕ → Text → Option Text
raw_opened hashes [] = none
raw_opened hashes (c ∷ s) = if c == b'"' then some (raw_body_end hashes s) else none

unfoldable pub raw_string_literal_end : Text → Option Text
raw_string_literal_end [] = none
raw_string_literal_end (c ∷ s) =
    if c == b'r' then raw_opened (skip_hashes s).0 (skip_hashes s).1 else none

abbrev pub or_else : Option Text → Option Text → Option Text
or_else none o = o
or_else (some s) o = some s

abbrev pub tail : Text → Text
tail [] = []
tail (c ∷ s) = s

unfoldable pub string_literal_end : Text → Option Text
string_literal_end [] = none
string_literal_end (c ∷ s) =
    if c == b'"'
    then some (quoted_string_end false s)
    else if c == b'b' && starts_with b'"' s
    then some (quoted_string_end false (tail s))
    else or_else (raw_string_literal_end (c ∷ s))
        (if c == b'b' then raw_string_literal_end s else none)

abbrev pub unwrap_or : Text → Option Text → Text
unwrap_or s none = s
unwrap_or s (some rest) = rest

-- Behind the literal that starts here, or else behind the character.
abbrev pub advance : Text → Text
advance [] = []
advance (c ∷ s) = unwrap_or s (string_literal_end (c ∷ s))

-- The loop, on fuel.
unfoldable pub comment_loop : ℕ → Text → Option Text
comment_loop zero s = none
comment_loop (suc fuel) [] = none
comment_loop (suc fuel) (c ∷ []) = none
comment_loop (suc fuel) (c ∷ d ∷ s) =
    let rest = comment_loop fuel (advance (c ∷ d ∷ s)) in
    if c == b'/' && d == b'/' then some (c ∷ d ∷ s) else rest

unfoldable pub line_comment : Text → Option Text
line_comment line = comment_loop (length line) line

unfoldable pub is_allow_comment : Text → Text → Bool
is_allow_comment line allow_prefix = is_some_and (line_comment line) (contains allow_prefix)

quoted_string_end-length :
    (escaped : Bool) (s : Text) → length (quoted_string_end escaped s) ≤ length s
unfolding quoted_string_end
quoted_string_end-length escaped [] = omega arith
quoted_string_end-length escaped (c ∷ s) =
    ground (arith, quoted_string_end-length (not escaped && c == b'\\') s)

strip_hashes-length :
    (hashes : ℕ) (s t : Text) → strip_hashes hashes s ≡ some t → length t ≤ length s
unfolding strip_hashes
strip_hashes-length zero s t h = ground arith
strip_hashes-length (suc hashes) [] t h = absurd cc
strip_hashes-length (suc hashes) (c ∷ s) t h = ground (arith, strip_hashes-length hashes s t)

skip_hashes-length : (s : Text) → length (skip_hashes s).1 ≤ length s
unfolding skip_hashes
skip_hashes-length [] = omega arith
skip_hashes-length (c ∷ s) = ground (arith, skip_hashes-length s)

raw_body_end-length : (hashes : ℕ) (s : Text) → length (raw_body_end hashes s) ≤ length s
unfolding raw_body_end
raw_body_end-length hashes [] = omega arith
raw_body_end-length hashes (c ∷ s) = elim (Option-cases (strip_hashes hashes s)) [
  | inl e ↦ rw e (ground (arith, raw_body_end-length hashes s))
  | inr (t, e) ↦
      rw e (ground (arith, raw_body_end-length hashes s, strip_hashes-length hashes s t e))
]

raw_opened-length : (hashes : ℕ) (s t : Text) → raw_opened hashes s ≡ some t → length t < length s
raw_opened-length hashes [] t h = absurd cc
raw_opened-length hashes (c ∷ s) t h = ground (arith, raw_body_end-length hashes s)

raw_string_literal_end-length :
    (s t : Text) → raw_string_literal_end s ≡ some t → length t < length s
unfolding raw_string_literal_end
raw_string_literal_end-length [] t h = absurd cc
raw_string_literal_end-length (c ∷ s) t h =
    ground (arith, skip_hashes-length s, raw_opened-length (skip_hashes s).0 (skip_hashes s).1 t)

or_else-length :
    (o p : Option Text) (bound : ℕ)
    → ((t : Text) → o ≡ some t → length t < bound)
    → ((t : Text) → p ≡ some t → length t < bound)
    → (t : Text) → or_else o p ≡ some t
    → length t < bound
or_else-length none p bound f g t h = g t h
or_else-length (some s) p bound f g t h = f t h

length-tail : (s : Text) → length (tail s) ≤ length s
length-tail [] = omega arith
length-tail (c ∷ s) = omega arith

string_literal_end-length : (s t : Text) → string_literal_end s ≡ some t → length t < length s
unfolding string_literal_end
string_literal_end-length [] t h = absurd cc
string_literal_end-length (c ∷ s) t h =
    let plain =
      or_else-length (raw_string_literal_end (c ∷ s))
        (if c == b'b' then raw_string_literal_end s else none) (length (c ∷ s))
        (raw_string_literal_end-length (c ∷ s))
        (λ u k. ground (arith, k, raw_string_literal_end-length s u)) t in
    ground (
      arith,
      plain,
      quoted_string_end-length false s,
      quoted_string_end-length false (tail s),
      length-tail s,
    )

unwrap_or-length :
    (bound : ℕ) (s : Text) (o : Option Text)
    → length s ≤ bound
    → ((t : Text) → o ≡ some t → length t ≤ bound)
    → length (unwrap_or s o) ≤ bound
unwrap_or-length bound s none h f = h
unwrap_or-length bound s (some t) h f = f t refl

advance-length : (c : ℕ) (s : Text) → length (advance (c ∷ s)) ≤ length s
advance-length c s =
    unwrap_or-length (length s) s (string_literal_end (c ∷ s)) (omega arith)
      (λ t e. ground (arith, string_literal_end-length (c ∷ s) t e))

comment_loop-fuel :
    (fuel more : ℕ) (s : Text)
    → length s ≤ fuel
    → length s ≤ more
    → comment_loop fuel s ≡ comment_loop more s
unfolding comment_loop
comment_loop-fuel zero zero s h k = refl
comment_loop-fuel zero (suc more) [] h k = refl
comment_loop-fuel zero (suc more) (c ∷ s) h k = absurd (omega (arith, h))
comment_loop-fuel (suc fuel) zero [] h k = refl
comment_loop-fuel (suc fuel) zero (c ∷ s) h k = absurd (omega (arith, k))
comment_loop-fuel (suc fuel) (suc more) [] h k = refl
comment_loop-fuel (suc fuel) (suc more) (c ∷ []) h k = refl
comment_loop-fuel (suc fuel) (suc more) (c ∷ d ∷ s) h k =
    let shorter = advance-length c (d ∷ s) in
    rw
      (comment_loop-fuel fuel more (advance (c ∷ d ∷ s)) (omega (arith, shorter, h))
        (omega (arith, shorter, k)))
      refl

abbrev pub starts_comment : Text → Bool
starts_comment [] = false
starts_comment (c ∷ []) = false
starts_comment (c ∷ d ∷ s) = c == b'/' && d == b'/'

onward :
    (line : Text)
    → comment_loop (length line) line ≡ (
        if starts_comment line
        then some line
        else comment_loop (length (advance line)) (advance line))
unfolding comment_loop
onward [] = refl
onward (c ∷ []) = short (advance (c ∷ [])) (advance-length c [])
  where
    short : (s : Text) → length s ≤ 0 → none ≡ comment_loop (length s) s
    short [] k = refl
    short (d ∷ s) k = absurd (omega (arith, k))
onward (c ∷ d ∷ s) =
    let shorter = advance-length c (d ∷ s) in
    rw
      (comment_loop-fuel (suc (length s)) (length (advance (c ∷ d ∷ s))) (advance (c ∷ d ∷ s))
        (omega (arith, shorter)) (omega arith))
      refl

-- The loop ends: with fuel for every character it finds what it finds with any more, and so the scan
-- of a line goes on, where no comment starts, as the scan of what is behind the literal or character.
pub line_comment-advance :
    (line : Text) (fuel : ℕ)
    → length line ≤ fuel
    → (comment_loop fuel line ≡ line_comment line)
      × (line_comment line
          ≡ (if starts_comment line then some line else line_comment (advance line)))
unfolding line_comment
line_comment-advance line fuel h =
    (comment_loop-fuel fuel (length line) line h (omega arith), onward line)

-- The first place where a comment starts, whatever stands in front.
unfoldable pub first_comment : Text → Option Text
first_comment [] = none
first_comment (c ∷ s) =
    let rest = first_comment s in if starts_comment (c ∷ s) then some (c ∷ s) else rest

raw_opened-plain :
    (hashes : ℕ) (s : Text) → any (λ c. c == b'"') s ≡ false → raw_opened hashes s ≡ none
raw_opened-plain hashes [] h = refl
raw_opened-plain hashes (c ∷ s) h = ground arith

skip_hashes-plain :
    (s : Text) → any (λ c. c == b'"') s ≡ false → any (λ c. c == b'"') (skip_hashes s).1 ≡ false
unfolding skip_hashes
skip_hashes-plain [] h = refl
skip_hashes-plain (c ∷ s) h = ground (arith, skip_hashes-plain s)

raw_string_literal_end-plain :
    (s : Text) → any (λ c. c == b'"') s ≡ false → raw_string_literal_end s ≡ none
unfolding raw_string_literal_end
raw_string_literal_end-plain [] h = refl
raw_string_literal_end-plain (c ∷ s) h =
    ground (arith, skip_hashes-plain s, raw_opened-plain (skip_hashes s).0 (skip_hashes s).1)

starts_with-plain : (s : Text) → any (λ c. c == b'"') s ≡ false → starts_with b'"' s ≡ false
starts_with-plain [] h = refl
starts_with-plain (c ∷ s) h = ground arith

string_literal_end-plain : (s : Text) → any (λ c. c == b'"') s ≡ false → string_literal_end s ≡ none
unfolding string_literal_end
string_literal_end-plain [] h = refl
string_literal_end-plain (c ∷ s) h =
    let here = raw_string_literal_end-plain (c ∷ s) h in
    let tail_plain : any (λ c. c == b'"') s ≡ false = ground arith in
    let solid : (c == b'"') ≡ false = ground arith in
    rw (here, solid, starts_with-plain s tail_plain, raw_string_literal_end-plain s tail_plain)
      (ground arith)

line_comment_empty : line_comment [] ≡ none
unfolding line_comment comment_loop
line_comment_empty = refl

-- In a line without a quote the comment starts at the first two slashes.
pub line_comment-first_comment :
    (line : Text) → any (λ c. c == b'"') line ≡ false → line_comment line ≡ first_comment line
unfolding first_comment
line_comment-first_comment [] h = line_comment_empty
line_comment-first_comment (c ∷ s) h =
    (line_comment-advance (c ∷ s) (length (c ∷ s)) (omega arith)).1
    ∙ ap (λ rest. if starts_comment (c ∷ s) then some (c ∷ s) else rest)
        (ap (λ o. line_comment (unwrap_or s o)) (string_literal_end-plain (c ∷ s) h)
          ∙ line_comment-first_comment s (ground arith))
