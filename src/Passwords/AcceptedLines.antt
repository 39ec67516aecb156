-- ===== src/Passwords/AcceptedLines.antt =====
-- What the check of crates/auth-password-core/src/lib.rs has found in the lines of a file that it accepts.
use world_infra.Prelude.{
  ℕ, ◌+◌, ◌≡◌, ◌≢◌, refl, ap, true, false, Option, none, some, List, [], ◌∷◌, All, map, ok, ok_or,
  ok_or-ok, bind-ok, guard-ok, arith,
}
use world_infra.Text.{Text, codes, trim, is_empty}
use world_infra.Passwords.Breaches.{
  less, greater, text_cmp, breached_hash_from_line, strip_return, lines, decode,
}
use world_infra.Passwords.Policy.{is_below, at_line, validate_lines}
use world_infra.Passwords.Lines.{HashLine, IsSorted, text_cmp-greater}
use world_infra.Passwords.ScannedLines.{IsScanned, body_of}

-- The order of hashes.
text_cmp_flip : (s t : Text) → text_cmp s t ≡ greater → text_cmp t s ≡ less
text_cmp_flip [] [] h = cc
text_cmp_flip [] (d ∷ t) h = cc
text_cmp_flip (c ∷ s) [] h = refl
text_cmp_flip (c ∷ s) (d ∷ t) h = ground (arith, h, text_cmp_flip s t)

text_cmp_trans :
    (s t u : Text) → text_cmp s t ≢ greater → text_cmp t u ≢ greater → text_cmp s u ≢ greater
text_cmp_trans s t u h k e = k (text_cmp-greater s t u h e)

-- A hash does not come before the one in front of it.
abbrev FollowsAll : Option Text → List HashLine → Type 0
FollowsAll none lines = Unit
FollowsAll (some previous_hash) lines =
    All (λ line. text_cmp previous_hash line.hash ≢ greater) lines

not_above :
    (hash previous_hash : Text)
    → is_below hash (some previous_hash) ≡ false
    → text_cmp previous_hash hash ≢ greater
not_above hash previous_hash h e = absurd (ground (arith, h, text_cmp_flip previous_hash hash e))

-- The lines of a file that the check accepts.
abbrev pub Checked : (List ℕ → Option Text) → Option Text → List (List ℕ) → Type 0
Checked from_utf8 previous_hash bodies =
    (lines : List HashLine) × (map body_of lines ≡ bodies)
    × All (IsScanned from_utf8) lines
    × IsSorted lines
    × FollowsAll previous_hash lines

FollowsAll-cons :
    (previous_hash : Option Text) (line : HashLine) (lines : List HashLine)
    → is_below line.hash previous_hash ≡ false
    → FollowsAll (some line.hash) lines
    → FollowsAll previous_hash (line ∷ lines)
FollowsAll-cons none line lines h k = tt
FollowsAll-cons (some previous_hash) line lines h k =
    let here = not_above line.hash previous_hash h in (here, follows lines k)
  where
    follows :
        (lines : List HashLine)
        → FollowsAll (some line.hash) lines
        → FollowsAll (some previous_hash) lines
    follows [] k = tt
    follows (next ∷ lines) (k, l) = (
      text_cmp_trans previous_hash line.hash next.hash (not_above line.hash previous_hash h) k,
      follows lines l,
    )

pub validate_lines-Checked :
    (from_utf8 : List ℕ → Option Text) (number : ℕ) (previous_hash : Option Text)
    (bodies : List (List ℕ))
    → validate_lines from_utf8 true number previous_hash (map strip_return bodies) ≡ ok tt
    → Checked from_utf8 previous_hash bodies
unfolding validate_lines
validate_lines-Checked from_utf8 number none [] h = ([], refl, tt, tt, tt)
validate_lines-Checked from_utf8 number (some previous_hash) [] h = ([], refl, tt, tt, tt)
validate_lines-Checked from_utf8 number previous_hash (body ∷ bodies) h =
    let (text, decoded, h) = bind-ok (decode from_utf8 (strip_return body)) _ tt h in
    let (full, h) = guard-ok (is_empty (trim text)) _ _ tt h in
    let (hash, found, h) =
      bind-ok
        (ok_or (breached_hash_from_line text)
          (at_line (codes "invalid breached password SHA-1 entry on line ") number))
        _ tt h in
    let (above, h) = guard-ok (is_below hash previous_hash) _ _ tt h in
    let (lines, whole, scanned, sorted, follows) =
      validate_lines-Checked from_utf8 (number + 1) (some hash) bodies h in
    let line : HashLine = record { body = body; hash = hash } in
    (
      line ∷ lines,
      ap (body ∷◌) whole,
      ((text, ok_or-ok _ _ text decoded, full, ok_or-ok _ _ hash found), scanned),
      (follows, sorted),
      FollowsAll-cons previous_hash line lines above follows,
    )
