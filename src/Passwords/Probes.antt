-- ===== src/Passwords/Probes.antt =====
-- Where the search of crates/auth-password-core/src/lib.rs finds the start of a line.
use world_infra.Prelude.{
  ℕ, zero, suc, ◌+◌, ◌-◌, ◌≤◌, ◌<◌, ◌≡◌, refl, sym, ap, ◌∙◌, subst, true, false, List, [], ◌∷◌,
  ◌++◌, append_assoc, any, All, length, length-append, ltb, ◌==◌, ==_iff, Bool-cases, inl, inr,
  arith, if◌then◌else◌,
}
use world_infra.Passwords.Breaches.{drop, is_newline_at, back_to_line_start}
use world_infra.Passwords.Lines.{
  HashLine, file_bytes, drop-drop, is_newline_at-drop, is_newline_at-body, is_newline_at-end,
}

-- A line of the file begins at a position, and from there on the bytes are those of the lines.
abbrev pub LinesAt : List ℕ → ℕ → List ℕ → Type 0
LinesAt bytes low rest = (drop low bytes ≡ rest) × (back_to_line_start bytes low ≡ low)

drop_line : (body rest : List ℕ) → drop (suc (length body)) (body ++ b'\n' ∷ rest) ≡ rest
drop_line [] rest = refl
drop_line (byte ∷ body) rest = drop_line body rest

-- The probe at a position within the file.
abbrev pub probe : List ℕ → ℕ → ℕ
probe bytes mid = if is_newline_at bytes mid then mid + 1 else back_to_line_start bytes mid

module _ (bytes : List ℕ) where
  newline_in :
      (low : ℕ) (rest : List ℕ) (n : ℕ)
      → drop low bytes ≡ rest
      → is_newline_at bytes (low + n) ≡ is_newline_at rest n
  newline_in low rest n h = sym (is_newline_at-drop low n bytes) ∙ ap (λ b. is_newline_at b n) h

  -- From a byte of a line the loop goes back to its start.
  back-body :
      (low : ℕ) (body rest : List ℕ) (n : ℕ)
      → LinesAt bytes low (body ++ rest)
      → any (λ byte. byte == b'\n') body ≡ false
      → n ≤ length body
      → back_to_line_start bytes (low + n) ≡ low
  unfolding back_to_line_start
  back-body low body rest zero (at, back) h k = ap (back_to_line_start bytes) (omega arith) ∙ back
  back-body low body rest (suc n) (at, back) h k =
      let next : low + suc n ≡ suc (low + n) = omega arith in
      let inside : is_newline_at bytes (low + n) ≡ false =
        newline_in low (body ++ rest) n at ∙ is_newline_at-body body rest n h (omega arith) in
      ap (back_to_line_start bytes) next
      ∙ rw inside (back-body low body rest n (at, back) h (omega arith))

  -- The next line begins behind the newline.
  pub LinesAt-next :
      (low : ℕ) (body rest : List ℕ)
      → LinesAt bytes low (body ++ b'\n' ∷ rest)
      → LinesAt bytes (low + suc (length body)) rest
  unfolding back_to_line_start
  LinesAt-next low body rest (at, back) =
      let next : low + suc (length body) ≡ suc (low + length body) = omega arith in
      let ended : is_newline_at bytes (low + length body) ≡ true =
        newline_in low (body ++ b'\n' ∷ rest) (length body) at ∙ is_newline_at-end body rest in
      (
        sym (drop-drop low (suc (length body)) bytes)
            ∙ ap (drop (suc (length body))) at
            ∙ drop_line body rest,
        ap (back_to_line_start bytes) next ∙ rw ended (sym next),
      )

  -- A place among some lines: the line that the probe finds, and what is in front of it and behind it.
  abbrev pub Located : ℕ → List HashLine → ℕ → Type 0
  Located low lines d =
      (front : List HashLine) × (line : HashLine) × (behind : List HashLine) × (lines
        ≡ front ++ line ∷ behind)
      × (probe bytes (low + d) ≡ low + length (file_bytes front))

  -- A place behind the first line is one among the others.
  Located-behind :
      (low d : ℕ) (first : HashLine) (lines : List HashLine)
      → Located (low + suc (length first.body)) lines d
      → Located low (first ∷ lines) (suc (length first.body) + d)
  Located-behind low d first lines (front, line, behind, e, f) = (
    first ∷ front,
    line,
    behind,
    ap (first ∷◌) e,
    ap (probe bytes) (omega arith)
        ∙ f
        ∙ omega (arith, length-append first.body (b'\n' ∷ file_bytes front)),
  )

  -- A byte of the first line, and its newline.
  Located-inside :
      (low d : ℕ) (first : HashLine) (lines : List HashLine) (tail : List ℕ)
      → LinesAt bytes low (first.body ++ b'\n' ∷ tail)
      → any (λ byte. byte == b'\n') first.body ≡ false
      → d < length first.body
      → Located low (first ∷ lines) d
  Located-inside low d first lines tail at plain h =
      let inside : is_newline_at bytes (low + d) ≡ false =
        newline_in low (first.body ++ b'\n' ∷ tail) d at.0
        ∙ is_newline_at-body first.body (b'\n' ∷ tail) d plain h in
      (
        [],
        first,
        lines,
        refl,
        rw inside (back-body low first.body (b'\n' ∷ tail) d at plain (omega arith) ∙ omega arith),
      )

  Located-newline :
      (low : ℕ) (first : HashLine) (lines : List HashLine) (tail : List ℕ)
      → LinesAt bytes low (first.body ++ b'\n' ∷ tail)
      → 0 < length (file_bytes lines)
      → Located low (first ∷ lines) (length first.body)
  Located-newline low first [] tail at h = absurd (omega arith)
  Located-newline low first (second ∷ lines) tail at h =
      let ended : is_newline_at bytes (low + length first.body) ≡ true =
        newline_in low (first.body ++ b'\n' ∷ tail) (length first.body) at.0
        ∙ is_newline_at-end first.body tail in
      (
        first ∷ [],
        second,
        lines,
        refl,
        rw ended (omega (arith, length-append first.body (b'\n' ∷ []))),
      )

  -- Every place among the lines is located, unless it is the newline of the last line.
  pub locate :
      (low d : ℕ) (lines : List HashLine) (tail : List ℕ)
      → LinesAt bytes low (file_bytes lines ++ tail)
      → All (λ line. any (λ byte. byte == b'\n') line.body ≡ false) lines
      → suc d < length (file_bytes lines)
      → Located low lines d
  locate low d [] tail at plain h = absurd (omega arith)
  locate low d (first ∷ lines) tail (at, back) (plain, others) h =
      let n = length first.body in
      let here : LinesAt bytes low (first.body ++ b'\n' ∷ (file_bytes lines ++ tail)) =
        (at ∙ append_assoc first.body (b'\n' ∷ file_bytes lines) tail, back) in
      let size = length-append first.body (b'\n' ∷ file_bytes lines) in
      elim (Bool-cases (ltb d n)) [
        | inl inside ↦
            Located-inside low d first lines (file_bytes lines ++ tail) here plain
              (ground (arith, inside))
        | inr outside ↦ elim (Bool-cases (d == n)) [
          | inl newline ↦ subst (Located low (first ∷ lines)) (sym ((==_iff d n).0 newline)) (
              Located-newline low first lines (file_bytes lines ++ tail) here
                (ground (arith, newline, h, size)))
          | inr behind ↦
              let rest : suc n + (d - suc n) ≡ d = ground (arith, outside, behind) in
              subst (Located low (first ∷ lines)) rest (
                Located-behind low (d - suc n) first lines (
                  locate (low + suc n) (d - suc n) lines tail
                    (LinesAt-next low first.body (file_bytes lines ++ tail) here) others
                    (ground (arith, outside, behind, h, size))))
        ]
      ]
