-- ===== src/SqlLint/Literals.antt =====
-- The literals of a line of Rust and what crates/scoped-sql-lint/src/lib.rs passes over.
use world_infra.Prelude.{
  ℕ, zero, suc, ◌≡◌, refl, ap, ◌∙◌, Bool, true, false, not, ◌&&◌, ◌||◌, none, some, List, [], ◌∷◌,
  ◌++◌, any, length, ◌==◌, arith, if◌then◌else◌,
}
use world_infra.Text.{Text}
use world_infra.SqlLint.Comments.{
  quoted_string_end, skip_hashes, strip_hashes, raw_body_end, raw_opened, raw_string_literal_end,
  string_literal_end, tail, unwrap_or, advance, starts_comment, line_comment, line_comment-advance,
  first_comment, line_comment-first_comment,
}

-- A character of a literal that stands for itself, or one behind a backslash.
pub data Piece : Type 0 where
  plain escaped : ℕ → Piece

-- A string with escapes, and a raw string with a number of hashes; with or without a `b` in front.
pub data Literal : Type 0 where
  string : Bool → List Piece → Literal
  raw : Bool → ℕ → Text → Literal

abbrev pub body_text : List Piece → Text
body_text [] = []
body_text (plain c ∷ pieces) = c ∷ body_text pieces
body_text (escaped c ∷ pieces) = b'\\' ∷ c ∷ body_text pieces

abbrev pub hashes_text : ℕ → Text
hashes_text zero = []
hashes_text (suc n) = b'#' ∷ hashes_text n

abbrev pub byte_prefix : Bool → Text → Text
byte_prefix false s = s
byte_prefix true s = b'b' ∷ s

-- The text of a literal in front of some text.
abbrev pub literal_text : Literal → Text → Text
literal_text (string byte pieces) rest = byte_prefix byte (b'"' ∷ (body_text pieces ++ b'"' ∷ rest))
literal_text (raw byte hashes body) rest =
    byte_prefix byte
      (b'r' ∷ (hashes_text hashes ++ b'"' ∷ (body ++ b'"' ∷ (hashes_text hashes ++ rest))))

abbrev pub has_hashes : ℕ → Text → Bool
has_hashes zero s = true
has_hashes (suc n) [] = false
has_hashes (suc n) (c ∷ s) = c == b'#' && has_hashes n s

-- A quote with as many hashes behind it.
abbrev pub has_end : ℕ → Text → Bool
has_end hashes [] = false
has_end hashes (c ∷ s) = (c == b'"' && has_hashes hashes s) || has_end hashes s

-- What stands for itself is no quote and no backslash, and a raw string does not have its own end in it.
abbrev pub is_special : Piece → Bool
is_special (plain c) = c == b'"' || c == b'\\'
is_special (escaped c) = false

abbrev pub is_literal : Literal → Bool
is_literal (string byte pieces) = not (any is_special pieces)
is_literal (raw byte hashes body) = not (has_end hashes body)

quoted_string_end-body_text :
    (pieces : List Piece) (rest : Text)
    → any is_special pieces ≡ false
    → quoted_string_end false (body_text pieces ++ b'"' ∷ rest) ≡ rest
unfolding quoted_string_end
quoted_string_end-body_text [] rest h = refl
quoted_string_end-body_text (plain c ∷ pieces) rest h =
    ground (arith, h, quoted_string_end-body_text pieces rest)
quoted_string_end-body_text (escaped c ∷ pieces) rest h =
    ground (arith, h, quoted_string_end-body_text pieces rest)

skip_hashes-hashes_text :
    (hashes : ℕ) (s : Text) → skip_hashes (hashes_text hashes ++ b'"' ∷ s) ≡ (hashes, b'"' ∷ s)
unfolding skip_hashes
skip_hashes-hashes_text zero s = refl
skip_hashes-hashes_text (suc hashes) s =
    ap (λ r. (suc (r.0), r.1)) (skip_hashes-hashes_text hashes s)

strip_hashes-hashes_text :
    (hashes : ℕ) (rest : Text) → strip_hashes hashes (hashes_text hashes ++ rest) ≡ some rest
unfolding strip_hashes
strip_hashes-hashes_text zero rest = refl
strip_hashes-hashes_text (suc hashes) rest = strip_hashes-hashes_text hashes rest

strip_hashes-body :
    (hashes : ℕ) (body rest : Text)
    → has_hashes hashes body ≡ false
    → strip_hashes hashes (body ++ b'"' ∷ rest) ≡ none
unfolding strip_hashes
strip_hashes-body zero body rest h = absurd cc
strip_hashes-body (suc hashes) [] rest h = refl
strip_hashes-body (suc hashes) (c ∷ body) rest h =
    ground (arith, h, strip_hashes-body hashes body rest)

raw_body_end-body :
    (hashes : ℕ) (body rest : Text)
    → has_end hashes body ≡ false
    → raw_body_end hashes (body ++ b'"' ∷ (hashes_text hashes ++ rest)) ≡ rest
unfolding raw_body_end
raw_body_end-body hashes [] rest h = rw (strip_hashes-hashes_text hashes rest) refl
raw_body_end-body hashes (c ∷ body) rest h = ground (
  arith,
  h,
  raw_body_end-body hashes body rest,
  strip_hashes-body hashes body (hashes_text hashes ++ rest),
)

raw_string_literal_end-raw :
    (hashes : ℕ) (body rest : Text)
    → has_end hashes body ≡ false
    → raw_string_literal_end (literal_text (raw false hashes body) rest) ≡ some rest
unfolding raw_string_literal_end
raw_string_literal_end-raw hashes body rest h =
    rw (skip_hashes-hashes_text hashes (body ++ b'"' ∷ (hashes_text hashes ++ rest)))
      (ap some (raw_body_end-body hashes body rest h))

raw_string_literal_end-b : (s : Text) → raw_string_literal_end (b'b' ∷ s) ≡ none
unfolding raw_string_literal_end
raw_string_literal_end-b s = refl

string_literal_end-literal_text :
    (literal : Literal) (rest : Text)
    → is_literal literal ≡ true
    → string_literal_end (literal_text literal rest) ≡ some rest
unfolding string_literal_end
string_literal_end-literal_text (string false pieces) rest h =
    ap some (quoted_string_end-body_text pieces rest (ground (arith, h)))
string_literal_end-literal_text (string true pieces) rest h =
    ap some (quoted_string_end-body_text pieces rest (ground (arith, h)))
string_literal_end-literal_text (raw false hashes body) rest h =
    rw (raw_string_literal_end-raw hashes body rest (ground (arith, h))) refl
string_literal_end-literal_text (raw true hashes body) rest h =
    rw (raw_string_literal_end-b _, raw_string_literal_end-raw hashes body rest (ground (arith, h)))
      refl

-- Code in front of a literal: no quote in it, no comment, and no last character that could belong to the
-- literal or to a comment.
abbrev pub is_code : Text → Bool
is_code [] = true
is_code (c ∷ []) = not (c == b'"' || (c == b'r' || (c == b'b' || (c == b'#' || c == b'/'))))
is_code (c ∷ d ∷ s) = not (c == b'"' || (c == b'/' && d == b'/')) && is_code (d ∷ s)

raw_opened-code :
    (n : ℕ) (c : ℕ) (front rest : Text)
    → is_code (c ∷ front) ≡ true
    → raw_opened n (skip_hashes (c ∷ (front ++ rest))).1 ≡ none
unfolding skip_hashes
raw_opened-code n c [] rest h = ground (arith, h)
raw_opened-code n c (d ∷ front) rest h = ground (arith, h, raw_opened-code n d front rest)

raw_string_literal_end-code :
    (c : ℕ) (front rest : Text)
    → is_code (c ∷ front) ≡ true
    → raw_string_literal_end (c ∷ (front ++ rest)) ≡ none
unfolding raw_string_literal_end
raw_string_literal_end-code c [] rest h = ground (arith, h)
raw_string_literal_end-code c (d ∷ front) rest h =
    ground (arith, h, raw_opened-code (skip_hashes (d ∷ (front ++ rest))).0 d front rest)

string_literal_end-code :
    (c : ℕ) (front rest : Text)
    → is_code (c ∷ front) ≡ true
    → string_literal_end (c ∷ (front ++ rest)) ≡ none
unfolding string_literal_end
string_literal_end-code c [] rest h =
    rw (raw_string_literal_end-code c [] rest h) (ground (arith, h))
string_literal_end-code c (d ∷ front) rest h =
    rw
      (
        raw_string_literal_end-code c (d ∷ front) rest h,
        raw_string_literal_end-code d front rest (ground (arith, h)),
      )
      (ground (arith, h))

starts_comment-code :
    (c : ℕ) (front rest : Text)
    → is_code (c ∷ front) ≡ true
    → starts_comment (c ∷ (front ++ rest)) ≡ false
starts_comment-code c [] [] h = refl
starts_comment-code c [] (d ∷ rest) h = ground (arith, h)
starts_comment-code c (d ∷ front) rest h = ground (arith, h)

is_code-tail : (c : ℕ) (front : Text) → is_code (c ∷ front) ≡ true → is_code front ≡ true
is_code-tail c [] h = refl
is_code-tail c (d ∷ front) h = ground (arith, h)

starts_comment-other : (c : ℕ) (s : Text) → (c == b'/') ≡ false → starts_comment (c ∷ s) ≡ false
starts_comment-other c [] h = refl
starts_comment-other c (d ∷ s) h = rw h refl

starts_comment-literal_text :
    (literal : Literal) (rest : Text) → starts_comment (literal_text literal rest) ≡ false
starts_comment-literal_text (string false pieces) rest =
    starts_comment-other b'"' (body_text pieces ++ b'"' ∷ rest) refl
starts_comment-literal_text (string true pieces) rest = refl
starts_comment-literal_text (raw false hashes body) rest = starts_comment-other b'r' _ refl
starts_comment-literal_text (raw true hashes body) rest = refl

advance_lem : (s : Text) → advance s ≡ unwrap_or (tail s) (string_literal_end s)
unfolding string_literal_end
advance_lem [] = refl
advance_lem (c ∷ s) = refl

line_comment-onward :
    (line : Text) → starts_comment line ≡ false → line_comment line ≡ line_comment (advance line)
line_comment-onward line h =
    (line_comment-advance line (length line) (omega arith)).1
    ∙ ap (λ b. if b then some line else line_comment (advance line)) h

-- The scan goes on behind a character of code, and behind a literal.
line_comment-code :
    (front rest : Text) → is_code front ≡ true → line_comment (front ++ rest) ≡ line_comment rest
line_comment-code [] rest h = refl
line_comment-code (c ∷ front) rest h =
    line_comment-onward (c ∷ (front ++ rest)) (starts_comment-code c front rest h)
    ∙ ap (λ o. line_comment (unwrap_or (front ++ rest) o)) (string_literal_end-code c front rest h)
    ∙ line_comment-code front rest (is_code-tail c front h)

line_comment-literal_text :
    (literal : Literal) (rest : Text)
    → is_literal literal ≡ true
    → line_comment (literal_text literal rest) ≡ line_comment rest
line_comment-literal_text literal rest h =
    let text = literal_text literal rest in
    line_comment-onward text (starts_comment-literal_text literal rest)
    ∙ ap line_comment (advance_lem text)
    ∙ ap (λ o. line_comment (unwrap_or (tail text) o))
        (string_literal_end-literal_text literal rest h)

-- The text of some code and literals in front of some text.
abbrev pub segments_text : List (Text × Literal) → Text → Text
segments_text [] rest = rest
segments_text ((code, literal) ∷ segments) rest =
    code ++ literal_text literal (segments_text segments rest)

abbrev pub AreSegments : List (Text × Literal) → Type 0
AreSegments [] = Unit
AreSegments ((code, literal) ∷ segments) =
    (is_code code ≡ true) × (is_literal literal ≡ true) × AreSegments segments

-- In a line of code and string literals, with escapes or raw, and at last a text without a quote, the comment
-- is what begins at the first two slashes of that text: what looks like a comment in a literal is none. The
-- code in front of a literal has no quote and no two slashes next to each other and does not end in `r`, `b`,
-- `#` or a slash.
pub line_comment-segments_text :
    (segments : List (Text × Literal)) (rest : Text)
    → AreSegments segments
    → any (λ c. c == b'"') rest ≡ false
    → line_comment (segments_text segments rest) ≡ first_comment rest
line_comment-segments_text [] rest h k = line_comment-first_comment rest k
line_comment-segments_text ((code, literal) ∷ segments) rest (good_code, good_literal, h) k =
    line_comment-code code (literal_text literal (segments_text segments rest)) good_code
    ∙ line_comment-literal_text literal (segments_text segments rest) good_literal
    ∙ line_comment-segments_text segments rest h k
