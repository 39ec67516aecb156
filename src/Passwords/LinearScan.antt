-- ===== src/Passwords/LinearScan.antt =====
-- The search of crates/auth-password-core/src/lib.rs answers as its scan of all lines, in a file that passed
-- the check.
use world_infra.Prelude.{
  ℕ, ◌<◌, ◌≡◌, refl, sym, ap, ◌∙◌, subst, true, Option, none, some, List, [], ◌∷◌, ◌++◌, All, map,
  length, ok,
}
use world_infra.Text.{Text, byte_length}
use world_infra.Passwords.Breaches.{
  strip_return, lines, scan_loop, breached_password_hash_sorted_file_contains,
}
use world_infra.Passwords.Policy.{validate_lines}
use world_infra.Passwords.Lines.{HashLine, file_bytes, IsHashLine}
use world_infra.Passwords.Search.{sorted_file_contains-holds}
use world_infra.Passwords.ScannedLines.{
  ended, IsPlain, lines-ended, IsScanned, body_of, add_char, IsScanned-IsHashLine, scan_loop-holds,
}
use world_infra.Passwords.AcceptedLines.{validate_lines-Checked}

file_bytes-ended : (lines : List HashLine) → file_bytes lines ≡ ended (map body_of lines)
file_bytes-ended [] = refl
file_bytes-ended (line ∷ lines) = ap (λ rest. line.body ++ b'\n' ∷ rest) (file_bytes-ended lines)

IsScanned-AreHashLines :
    (from_utf8 : List ℕ → Option Text)
    → ((bytes : List ℕ) (c : ℕ)
        → c < 128
        → from_utf8 (bytes ++ c ∷ []) ≡ add_char c (from_utf8 bytes))
    → ((bytes : List ℕ) (text : Text)
        → from_utf8 bytes ≡ some text
        → byte_length text ≡ length bytes)
    → (lines : List HashLine) → All IsPlain (map body_of lines)
    → All (IsScanned from_utf8) lines
    → All (IsHashLine from_utf8) lines
IsScanned-AreHashLines from_utf8 snoc sized [] h k = tt
IsScanned-AreHashLines from_utf8 snoc sized (line ∷ lines) (h, plain) (k, scanned) = (
  IsScanned-IsHashLine from_utf8 snoc sized line h k,
  IsScanned-AreHashLines from_utf8 snoc sized lines plain scanned,
)

-- For lines without a newline in them, each of which ends in one: where decoding appends an ASCII byte as a
-- character and keeps the number of bytes, and the check accepts the lines as sorted, the search of the file
-- ends and gives what the scan of all its lines gives.
pub sorted_file_contains-scan_loop :
    (from_utf8 : List ℕ → Option Text)
    → ((bytes : List ℕ) (c : ℕ)
        → c < 128
        → from_utf8 (bytes ++ c ∷ []) ≡ add_char c (from_utf8 bytes))
    → ((bytes : List ℕ) (text : Text)
        → from_utf8 bytes ≡ some text
        → byte_length text ≡ length bytes)
    → (password_hash : Text) (bodies : List (List ℕ)) → All IsPlain bodies
    → validate_lines from_utf8 true 1 none (lines (ended bodies)) ≡ ok tt
    → breached_password_hash_sorted_file_contains from_utf8 (ended bodies) password_hash
      ≡ some (scan_loop from_utf8 1 (lines (ended bodies)) password_hash)
sorted_file_contains-scan_loop from_utf8 snoc sized password_hash bodies plain accepted =
    let read = lines-ended bodies plain in
    let (hash_lines, whole, scanned, sorted, _) =
      validate_lines-Checked from_utf8 1 none bodies
        (ap (validate_lines from_utf8 true 1 none) (sym read) ∙ accepted) in
    let valid =
      IsScanned-AreHashLines from_utf8 snoc sized hash_lines (subst (All IsPlain) (sym whole) plain)
        scanned in
    ap (λ bytes. breached_password_hash_sorted_file_contains from_utf8 bytes password_hash)
      (sym (file_bytes-ended hash_lines ∙ ap ended whole))
    ∙ sorted_file_contains-holds from_utf8 password_hash hash_lines valid sorted
    ∙ ap some (
        sym (scan_loop-holds from_utf8 1 password_hash hash_lines scanned)
        ∙ ap (λ parts. scan_loop from_utf8 1 parts password_hash)
            (ap (map strip_return) whole ∙ sym read))
