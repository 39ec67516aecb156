-- ===== src/Passwords/ScannedLines.antt =====
-- Lines of a file of hashes as the scan of crates/auth-password-core/src/lib.rs reads them.
use world_infra.Prelude.{
  ℕ, ◌+◌, ◌<◌, ◌≡◌, refl, sym, ap, ◌∙◌, true, false, Option, none, some, List, [], ◌∷◌, ◌++◌, any,
  All, map, length, length-append, ◌==◌, Bool-cases, inl, inr, ok, arith,
}
use world_infra.Text.{Text, text_eq, byte_length, is_whitespace, trim, is_empty}
use world_infra.Text.Scan.{split}
use world_infra.Text.Split.{split-append, split_cons}
use world_infra.Passwords.Breaches.{
  breached_hash_from_line, strip_return, ended_lines, lines, scan_loop,
}
use world_infra.Passwords.Lines.{HashLine, IsHashLine, holds}
use world_infra.Passwords.LineEnds.{breached_hash_from_line-snoc, strip_return-cases, hash_long}

-- Lines that each end in a newline.
abbrev pub ended : List (List ℕ) → List ℕ
ended [] = []
ended (body ∷ bodies) = body ++ b'\n' ∷ ended bodies

abbrev pub IsPlain : List ℕ → Type 0
IsPlain body = any (λ byte. byte == b'\n') body ≡ false

pub lines-ended :
    (bodies : List (List ℕ)) → All IsPlain bodies → lines (ended bodies) ≡ map strip_return bodies
unfolding lines split
lines-ended [] h = refl
lines-ended (body ∷ bodies) (h, k) =
    let (next, more, e) = split_cons b'\n' (ended bodies) in
    ap ended_lines (split-append b'\n' body (ended bodies) h)
    ∙ ap (λ parts. ended_lines (body ∷ parts)) e
    ∙ ap (strip_return body ∷◌) (ap ended_lines (sym e) ∙ lines-ended bodies k)

-- A line as the scan reads it.
abbrev pub IsScanned : (List ℕ → Option Text) → HashLine → Type 0
IsScanned from_utf8 line =
    (text : Text) × (from_utf8 (strip_return line.body) ≡ some text)
    × (is_empty (trim text) ≡ false)
    × (breached_hash_from_line text ≡ some line.hash)

abbrev pub body_of : HashLine → List ℕ
body_of line = line.body

abbrev pub add_char : ℕ → Option Text → Option Text
add_char c none = none
add_char c (some text) = some (text ++ c ∷ [])

-- What is relied on of UTF-8: an ASCII character is its byte, and a text has as many bytes as it is
-- decoded from.
module _ (from_utf8 : List ℕ → Option Text)
    (from_utf8-snoc : (bytes : List ℕ) (c : ℕ)
      → c < 128
      → from_utf8 (bytes ++ c ∷ []) ≡ add_char c (from_utf8 bytes))
    (from_utf8-length : (bytes : List ℕ) (text : Text)
      → from_utf8 bytes ≡ some text
      → byte_length text ≡ length bytes) where
  -- The line with its newline has the same hash.
  newline-hash :
      (bytes : List ℕ) (c : ℕ) (text hash : Text)
      → c < 128
      → is_whitespace c ≡ true
      → (c == b':') ≡ false
      → from_utf8 bytes ≡ some text
      → breached_hash_from_line text ≡ some hash
      → (from_utf8 (bytes ++ c ∷ []) ≡ some (text ++ c ∷ []))
        × (breached_hash_from_line (text ++ c ∷ []) ≡ some hash)
  newline-hash bytes c text hash h blank other e f = (
    from_utf8-snoc bytes c h ∙ ap (add_char c) e,
    breached_hash_from_line-snoc text c blank other ∙ f,
  )

  pub IsScanned-IsHashLine :
      (line : HashLine) → IsPlain line.body → IsScanned from_utf8 line → IsHashLine from_utf8 line
  unfolding is_whitespace
  IsScanned-IsHashLine line plain (text, e, full, f) = elim (strip_return-cases line.body) [
    | inl same ↦
        let decoded = ap from_utf8 (sym same) ∙ e in
        let (g, k) =
          newline-hash line.body b'\n' text line.hash (omega arith) refl refl decoded f in
        (
          plain,
          omega (arith, hash_long text line.hash f, from_utf8-length line.body text decoded),
          text ++ b'\n' ∷ [],
          g,
          k,
        )
    | inr (front, whole, stripped) ↦
        let decoded = ap from_utf8 (sym stripped) ∙ e in
        let (g, k) = newline-hash front b'\r' text line.hash (omega arith) refl refl decoded f in
        let there = ap from_utf8 whole ∙ g in
        let (g, k) =
          newline-hash line.body b'\n' (text ++ b'\r' ∷ []) line.hash (omega arith) refl refl there
            k in
        (
          plain,
          omega (
            arith,
            hash_long text line.hash f,
            from_utf8-length front text decoded,
            ap length whole,
            length-append front (b'\r' ∷ []),
          ),
          (text ++ b'\r' ∷ []) ++ b'\n' ∷ [],
          g,
          k,
        )
  ]

pub scan_loop-holds :
    (from_utf8 : List ℕ → Option Text) (number : ℕ) (password_hash : Text) (lines : List HashLine)
    → All (IsScanned from_utf8) lines
    → scan_loop from_utf8 number (map strip_return (map body_of lines)) password_hash
      ≡ ok (holds password_hash lines)
unfolding scan_loop
scan_loop-holds from_utf8 number password_hash [] h = refl
scan_loop-holds from_utf8 number password_hash (line ∷ lines) ((text, e, full, f), h) =
    let further = scan_loop-holds from_utf8 (number + 1) password_hash lines h in
    elim (Bool-cases (text_eq line.hash password_hash)) [
      | inl found ↦ rw (e, full, f, found) refl
      | inr other ↦ rw (e, full, f, other) further
    ]
