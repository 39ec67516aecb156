-- ===== src/Passwords/Search.antt =====
-- The search of crates/auth-password-core/src/lib.rs in a sorted file finds what the file holds.
use world_infra.Prelude.{
  ℕ, zero, suc, ◌+◌, ◌-◌, ◌/◌, ◌≤◌, ◌<◌, ◌≡◌, refl, sym, ap, ◌∙◌, subst, false, Option, some, List,
  [], ◌∷◌, ◌++◌, append_assoc, append-nil, any, All, length, length-append, ltb, ◌==◌, ok, arith,
}
use world_infra.Text.{Text}
use world_infra.Passwords.Breaches.{
  greater, text_cmp, drop, take_line, back_to_line_start, seek_probe_line_start, search_loop,
  breached_password_hash_sorted_file_contains,
}
use world_infra.Passwords.Lines.{
  HashLine, line_bytes, file_bytes, file_bytes-append, IsHashLine, IsSorted, IsSorted-append, holds,
  All-append, take_line-body, text_cmp-greater,
}
use world_infra.Passwords.Probes.{LinesAt, locate, LinesAt-next}
use world_infra.Passwords.Rounds.{AreAbove, length-drop, check_line-above, seek-probe, search_round}

module _ (from_utf8 : List ℕ → Option Text) (password_hash : Text) (bytes : List ℕ) where
  -- The lines that are left at a position, and those behind them, which are greater.
  abbrev Searching : ℕ → List HashLine → List HashLine → Type 0
  Searching low lines above =
      LinesAt bytes low (file_bytes lines ++ file_bytes above)
      × All (IsHashLine from_utf8) lines
      × All (IsHashLine from_utf8) above
      × IsSorted lines
      × AreAbove password_hash above

  abbrev Answers : ℕ → Type 0
  Answers fuel =
      (low : ℕ) (lines above : List HashLine)
      → length (file_bytes lines) < fuel
      → Searching low lines above
      → search_loop from_utf8 fuel bytes password_hash low (low + length (file_bytes lines))
        ≡ some (ok (holds password_hash lines))

  LinesAt-front :
      (low : ℕ) (front : List HashLine) (rest : List ℕ)
      → LinesAt bytes low (file_bytes front ++ rest)
      → LinesAt bytes (low + length (file_bytes front)) rest
  LinesAt-front low [] rest at = subst (λ n. LinesAt bytes n rest) (omega arith) at
  LinesAt-front low (line ∷ front) rest (at, back) =
      let here : LinesAt bytes low (line.body ++ b'\n' ∷ (file_bytes front ++ rest)) =
        (at ∙ append_assoc line.body (b'\n' ∷ file_bytes front) rest, back) in
      subst (λ n. LinesAt bytes n rest)
        (omega (arith, length-append line.body (b'\n' ∷ file_bytes front)))
        (LinesAt-front (low + suc (length line.body)) front rest
          (LinesAt-next bytes low line.body (file_bytes front ++ rest) here))

  above-IsAbove :
      (line : HashLine) (behind above : List HashLine)
      → IsSorted (line ∷ behind)
      → text_cmp line.hash password_hash ≡ greater
      → AreAbove password_hash above
      → AreAbove password_hash (behind ++ above)
  above-IsAbove line [] above sorted h k = k
  above-IsAbove line (next ∷ behind) above ((first, others), (_, sorted)) h k = (
    text_cmp-greater line.hash next.hash password_hash first h,
    above-IsAbove line behind above (others, sorted) h k,
  )

  All-join {κ} :
      (P : HashLine → Type κ) (xs ys : List HashLine) → All P xs → All P ys → All P (xs ++ ys)
  All-join P [] ys h k = k
  All-join P (x ∷ xs) ys (h, l) k = (h, All-join P xs ys l k)

  search_located :
      (fuel low : ℕ) (front : List HashLine) (line : HashLine) (behind above : List HashLine)
      → Answers fuel
      → length (file_bytes (front ++ line ∷ behind)) < suc fuel
      → Searching low (front ++ line ∷ behind) above
      → seek_probe_line_start bytes
          (low + (low + length (file_bytes (front ++ line ∷ behind)) - low) / 2)
          (length bytes)
        ≡ low + length (file_bytes front)
      → search_loop from_utf8
          (suc fuel)
          bytes
          password_hash
          low
          (low + length (file_bytes (front ++ line ∷ behind)))
        ≡ some (ok (holds password_hash (front ++ line ∷ behind)))
  search_located fuel low front line behind above answers enough
        ((at, back), valid, valid_above, sorted, beyond) probed =
      let (valid_front, (valid_line, valid_behind)) =
        All-append (IsHashLine from_utf8) front (line ∷ behind) valid in
      let (sorted_front, sorted_line) = IsSorted-append front (line ∷ behind) sorted in
      let parts = file_bytes-append front (line ∷ behind) in
      let width = length-append line.body (b'\n' ∷ []) in
      let size : length (file_bytes (front ++ line ∷ behind))
          ≡ length (file_bytes front) + (suc (length line.body) + length (file_bytes behind)) =
        ap length parts
        ∙ omega (
          arith,
          length-append (file_bytes front) (file_bytes (line ∷ behind)),
          length-append line.body (b'\n' ∷ file_bytes behind),
        ) in
      let whole : drop low bytes
          ≡ file_bytes front ++ (file_bytes (line ∷ behind) ++ file_bytes above) =
        at
        ∙ ap (λ b. b ++ file_bytes above) parts
        ∙ append_assoc (file_bytes front) (file_bytes (line ∷ behind)) (file_bytes above) in
      let tail = file_bytes behind ++ file_bytes above in
      let line_start = low + length (file_bytes front) in
      let (line_at, line_back) = LinesAt-front low front _ (whole, back) in
      let here : LinesAt bytes line_start (line.body ++ b'\n' ∷ tail) = (
        line_at ∙ append_assoc line.body (b'\n' ∷ file_bytes behind) (file_bytes above),
        line_back,
      ) in
      let next : LinesAt bytes (line_start + length (line_bytes line)) tail =
        subst (λ n. LinesAt bytes (line_start + n) tail) (omega (arith, width))
          (LinesAt-next bytes line_start line.body tail here) in
      let further : search_loop from_utf8 fuel bytes password_hash
            (line_start + length (line_bytes line))
            (low + length (file_bytes (front ++ line ∷ behind)))
          ≡ some (ok (holds password_hash behind)) =
        ap (search_loop from_utf8 fuel bytes password_hash (line_start + length (line_bytes line)))
          (omega (arith, size, width))
        ∙ answers (line_start + length (line_bytes line)) behind above (omega (arith, size, enough))
            (next, valid_behind, valid_above, sorted_line.1, beyond) in
      let joined : drop low bytes ≡ file_bytes front ++ file_bytes (line ∷ (behind ++ above)) =
        whole ∙ ap (file_bytes front ++◌) (sym (file_bytes-append (line ∷ behind) above)) in
      search_round from_utf8 password_hash bytes fuel low
        (low + length (file_bytes (front ++ line ∷ behind))) line_start front line behind
        (omega (arith, size)) probed (omega (arith, size))
        (ap take_line here.0 ∙ take_line-body line.body tail valid_line.0) valid_line sorted further
        (λ high_line. answers low front (line ∷ (behind ++ above)) (omega (arith, size, enough)) (
          (joined, back),
          valid_front,
          (valid_line, All-join (IsHashLine from_utf8) behind above valid_behind valid_above),
          sorted_front,
          (high_line, above-IsAbove line behind above sorted_line high_line beyond),
        ))

  plain_lines :
      (lines : List HashLine)
      → All (IsHashLine from_utf8) lines
      → All (λ line. any (λ byte. byte == b'\n') line.body ≡ false) lines
  plain_lines [] h = tt
  plain_lines (line ∷ lines) (h, k) = (h.0, plain_lines lines k)

  -- Where the round looks among some lines.
  abbrev Probed : ℕ → List HashLine → ℕ → Type 0
  Probed low lines line_start =
      seek_probe_line_start bytes (low + (low + length (file_bytes lines) - low) / 2) (length bytes)
      ≡ line_start

  -- The round finds the start of one of the lines.
  Probed-line :
      (low : ℕ) (first : HashLine) (rest above : List HashLine)
      → Searching low (first ∷ rest) above
      → (front : List HashLine) × (line : HashLine) × (behind : List HashLine) × (first ∷ rest
          ≡ front ++ line ∷ behind)
        × Probed low (first ∷ rest) (low + length (file_bytes front))
  Probed-line low first rest above (at, valid, _, _, _) =
      let size = length (file_bytes (first ∷ rest)) in
      let long : 3 ≤ size =
        omega (arith, valid.0.1, length-append first.body (b'\n' ∷ file_bytes rest)) in
      let inside : low + size ≤ length bytes = omega (
        arith,
        long,
        length-drop low bytes,
        ap length at.0,
        length-append (file_bytes (first ∷ rest)) (file_bytes above),
      ) in
      let middle : low + (low + size - low) / 2 ≡ low + size / 2 = omega arith in
      let (front, line, behind, e, f) =
        locate bytes low (size / 2) (first ∷ rest) (file_bytes above) at
          (plain_lines (first ∷ rest) valid) (omega (arith, long)) in
      (
        front,
        line,
        behind,
        e,
        ap (λ mid. seek_probe_line_start bytes mid (length bytes)) middle
            ∙ seek-probe from_utf8 password_hash bytes (low + size / 2) (omega (arith, long))
                (omega (arith, long, inside))
            ∙ f,
      )

  search_loop-holds : (fuel : ℕ) → Answers fuel
  unfolding search_loop
  search_loop-holds zero low lines above h k = absurd (omega arith)
  search_loop-holds (suc fuel) low [] above h ((at, back), valid, valid_above, sorted, beyond) =
      let closed : ltb low (low + 0) ≡ false = ground arith in
      rw (search_loop, closed)
        (ap some (check_line-above from_utf8 password_hash bytes low above at valid_above beyond))
  search_loop-holds (suc fuel) low (first ∷ rest) above h searching =
      let (front, line, behind, e, probed) = Probed-line low first rest above searching in
      let (enough, found, at) =
        subst
          (λ lines.
            (length (file_bytes lines) < suc fuel)
            × Searching low lines above
            × Probed low lines (low + length (file_bytes front)))
          e (h, searching, probed) in
      subst
        (λ lines.
          search_loop from_utf8 (suc fuel) bytes password_hash low (low + length (file_bytes lines))
          ≡ some (ok (holds password_hash lines)))
        (sym e)
        (search_located fuel low front line behind above (search_loop-holds fuel) enough found at)

-- In a file of lines that each end in a newline and hold a hash, with the hashes in their order, the search
-- ends and tells whether one of the lines holds the hash.
pub sorted_file_contains-holds :
    (from_utf8 : List ℕ → Option Text) (password_hash : Text) (lines : List HashLine)
    → All (IsHashLine from_utf8) lines
    → IsSorted lines
    → breached_password_hash_sorted_file_contains from_utf8 (file_bytes lines) password_hash
      ≡ some (ok (holds password_hash lines))
unfolding breached_password_hash_sorted_file_contains back_to_line_start
sorted_file_contains-holds from_utf8 password_hash [] valid sorted = refl
sorted_file_contains-holds from_utf8 password_hash (first ∷ rest) valid sorted =
    let bytes = file_bytes (first ∷ rest) in
    let nonempty : (length bytes == 0) ≡ false =
      ground (arith, length-append first.body (b'\n' ∷ file_bytes rest)) in
    let from_zero : 0 + length bytes ≡ length bytes = omega arith in
    rw nonempty (
      ap (search_loop from_utf8 (suc (length bytes)) bytes password_hash 0) (sym from_zero)
      ∙ search_loop-holds from_utf8 password_hash bytes (suc (length bytes)) 0 (first ∷ rest) []
          (omega arith) ((sym (append-nil bytes), refl), valid, tt, sorted, tt))
