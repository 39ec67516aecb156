-- ===== src/Passwords/Rounds.antt =====
-- One round of the search of crates/auth-password-core/src/lib.rs.
use world_infra.Prelude.{
  ℕ, zero, suc, ◌+◌, ◌-◌, ◌/◌, ◌<◌, ◌≡◌, refl, sym, ap, ◌∙◌, true, false, Option, some, List, [],
  ◌∷◌, ◌++◌, All, length, ltb, leb, ◌⊎◌, inl, inr, ok, arith,
}
use world_infra.Text.{Text, text_eq, is_empty}
use world_infra.Passwords.Breaches.{
  Ordering, less, equal, greater, text_cmp, drop, take_line, seek_probe_line_start, check_line,
  search_loop,
}
use world_infra.Passwords.Lines.{
  HashLine, line_bytes, file_bytes, IsHashLine, IsSorted, holds, holds-below, holds-above,
  compare_line-hash, take_line-body, text_cmp-equal,
}
use world_infra.Passwords.Probes.{probe}

abbrev pub AreAbove : Text → List HashLine → Type 0
AreAbove password_hash lines = All (λ line. text_cmp line.hash password_hash ≡ greater) lines

cmp-cases : (order : Ordering) → (order ≡ less) ⊎ ((order ≡ equal) ⊎ (order ≡ greater))
cmp-cases less = inl refl
cmp-cases equal = inr (inl refl)
cmp-cases greater = inr (inr refl)

line_full : (body rest : List ℕ) → is_empty (body ++ b'\n' ∷ rest) ≡ false
line_full [] rest = refl
line_full (byte ∷ body) rest = refl

pub length-drop : (n : ℕ) (xs : List ℕ) → length (drop n xs) ≡ length xs - n
length-drop zero xs = omega arith
length-drop (suc n) [] = omega arith
length-drop (suc n) (x ∷ xs) = omega (arith, length-drop n xs)

holds-here :
    (password_hash : Text) (front : List HashLine) (line : HashLine) (behind : List HashLine)
    → text_eq line.hash password_hash ≡ true
    → holds password_hash (front ++ line ∷ behind) ≡ true
holds-here password_hash [] line behind h = rw h refl
holds-here password_hash (first ∷ front) line behind h =
    ground (arith, holds-here password_hash front line behind h)

module _ (from_utf8 : List ℕ → Option Text) (password_hash : Text) (bytes : List ℕ) where
  -- Where the lines from a position on are greater, the last look finds nothing.
  pub check_line-above :
      (low : ℕ) (lines : List HashLine)
      → drop low bytes ≡ file_bytes lines
      → All (IsHashLine from_utf8) lines
      → AreAbove password_hash lines
      → check_line from_utf8 bytes password_hash low ≡ ok false
  unfolding check_line
  check_line-above low [] at valid above = rw at refl
  check_line-above low (line ∷ lines) at (valid, _) (above, _) =
      let taken : take_line (drop low bytes) ≡ line_bytes line =
        ap take_line at ∙ take_line-body line.body (file_bytes lines) valid.0 in
      rw
        (taken, line_full line.body [], compare_line-hash from_utf8 line password_hash valid, above)
        refl

  pub seek-probe :
      (mid : ℕ)
      → 0 < mid
      → mid < length bytes
      → seek_probe_line_start bytes mid (length bytes) ≡ probe bytes mid
  unfolding seek_probe_line_start
  seek-probe mid h k = ground (arith, h, k)

  -- One round at a line, with the answers of the two that may follow.
  pub search_round :
      (fuel low high line_start : ℕ)
      → (front : List HashLine) (line : HashLine) (behind : List HashLine) → low < high
      → seek_probe_line_start bytes (low + (high - low) / 2) (length bytes) ≡ line_start
      → line_start < high
      → take_line (drop line_start bytes) ≡ line_bytes line
      → IsHashLine from_utf8 line
      → IsSorted (front ++ line ∷ behind)
      → search_loop from_utf8 fuel bytes password_hash (line_start + length (line_bytes line)) high
        ≡ some (ok (holds password_hash behind))
      → ((text_cmp line.hash password_hash ≡ greater)
          → search_loop from_utf8 fuel bytes password_hash low line_start
            ≡ some (ok (holds password_hash front)))
      → search_loop from_utf8 (suc fuel) bytes password_hash low high
        ≡ some (ok (holds password_hash (front ++ line ∷ behind)))
  unfolding search_loop
  search_round fuel low high line_start front line behind nonempty at before taken valid sorted
        further nearer =
      let more : ltb low high ≡ true = ground (arith, nonempty) in
      let inside : leb high line_start ≡ false = ground (arith, before) in
      elim (cmp-cases (text_cmp line.hash password_hash)) [
        | inl below ↦
            rw
              (
                search_loop,
                more,
                at,
                inside,
                taken,
                line_full line.body [],
                compare_line-hash from_utf8 line password_hash valid,
                below,
              )
              (further
                ∙ ap (λ b. some (ok b))
                    (sym (holds-below password_hash front line behind sorted below)))
        | inr (inl same) ↦
            rw
              (
                search_loop,
                more,
                at,
                inside,
                taken,
                line_full line.body [],
                compare_line-hash from_utf8 line password_hash valid,
                same,
              )
              (ap (λ b. some (ok b))
                (sym (
                  holds-here password_hash front line behind
                    (text_cmp-equal line.hash password_hash same))))
        | inr (inr above) ↦
            rw
              (
                search_loop,
                more,
                at,
                inside,
                taken,
                line_full line.body [],
                compare_line-hash from_utf8 line password_hash valid,
                above,
              )
              (nearer above
                ∙ ap (λ b. some (ok b))
                    (sym (holds-above password_hash front line behind sorted above)))
      ]
