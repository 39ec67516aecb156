-- ===== src/Passwords/Tests.antt =====
-- Tests and examples for crates/auth-password-core/src/lib.rs. Bytes stand for themselves as characters.
use world_infra.Prelude.{
  ℕ, ◌≡◌, ◌<◌, refl, true, ◌++◌, length, ltb, none, if◌then◌else◌, Bool-cases, inl, inr, ap, ◌∙◌,
  suc, Option, some, List, [], ◌∷◌, All, false, Result, ok, err, arith,
}
use world_infra.Text.{Text, text_eq, codes, byte_length, trim, trim_start, is_whitespace}
use world_infra.Text.Scan.{split, split_once}
use world_infra.Passwords.{
  too_short, validate_password_length_range, is_common_password, is_common_password_with_policy,
  normalize_common_password,
}
use world_infra.Passwords.Breaches.{
  File, validate_breach_file_metadata, search_loop, seek_probe_line_start, back_to_line_start,
  check_line, compare_line, line_hash_cmp, breached_hash_from_line, normalize_sha1_hash, lines,
  breached_password_hash_sorted_file_contains,
}
use world_infra.Passwords.Lines.{HashLine, file_bytes, IsHashLine, IsSorted, holds}
use world_infra.Passwords.Policy.{
  validate_lines, validate_breached_password_file, file_contains, breached_password_file_contains,
}
use world_infra.Passwords.ScannedLines.{ended, add_char}
use world_infra.Passwords.FileLookup.{file_options, breached_password_file_contains-sorted}
use world_infra.Passwords.Search.{sorted_file_contains-holds}

abbrev latin : List ℕ → Option Text
latin bytes = some bytes

abbrev first_hash : Text
first_hash = codes "0000000000000000000000000000000000000001"

abbrev second_hash : Text
second_hash = codes "00000000000000000000000000000000000000FF"

abbrev breaches : List HashLine
breaches =
    record { body = codes "0000000000000000000000000000000000000001:3"; hash = first_hash }
    ∷ record { body = codes "00000000000000000000000000000000000000ff"; hash = second_hash }
    ∷ []

breaches-AreHashLines : All (IsHashLine latin) breaches
unfolding breached_hash_from_line normalize_sha1_hash split_once trim trim_start is_whitespace
breaches-AreHashLines = (
  (refl, omega arith, codes "0000000000000000000000000000000000000001:3\n", refl, refl),
  ((refl, omega arith, codes "00000000000000000000000000000000000000ff\n", refl, refl), tt),
)

breaches-IsSorted : IsSorted breaches
breaches-IsSorted = (((λ e. cc), tt), (tt, tt))

sorted_file_contains-holds_example :
    breached_password_hash_sorted_file_contains latin (file_bytes breaches) second_hash
    ≡ some (ok (holds second_hash breaches))
sorted_file_contains-holds_example =
    sorted_file_contains-holds latin second_hash breaches breaches-AreHashLines breaches-IsSorted

short_password : validate_password_length_range (codes "abc") 8 64 ≡ err (too_short 3 8)
unfolding validate_password_length_range
short_password = refl

common_password : is_common_password (codes " LetMeIn ") ≡ true
unfolding is_common_password is_common_password_with_policy normalize_common_password trim
    trim_start is_whitespace
common_password = refl

-- The decoding of ASCII.
abbrev prepend : ℕ → Option Text → Option Text
prepend byte none = none
prepend byte (some text) = if ltb byte 128 then some (byte ∷ text) else none

abbrev ascii : List ℕ → Option Text
ascii [] = some []
ascii (byte ∷ bytes) = prepend byte (ascii bytes)

prepend-add_char :
    (byte c : ℕ) (o : Option Text) → prepend byte (add_char c o) ≡ add_char c (prepend byte o)
prepend-add_char byte c none = refl
prepend-add_char byte c (some text) = elim (Bool-cases (ltb byte 128)) [
  | inl small ↦ rw small refl
  | inr large ↦ rw large refl
]

ascii-snoc : (bytes : List ℕ) (c : ℕ) → c < 128 → ascii (bytes ++ c ∷ []) ≡ add_char c (ascii bytes)
ascii-snoc [] c h = ground (arith, h)
ascii-snoc (byte ∷ bytes) c h =
    ap (prepend byte) (ascii-snoc bytes c h) ∙ prepend-add_char byte c (ascii bytes)

byte_length-prepend :
    (byte n : ℕ) (o : Option Text) (text : Text)
    → ((rest : Text) → o ≡ some rest → byte_length rest ≡ n)
    → prepend byte o ≡ some text
    → byte_length text ≡ suc n
byte_length-prepend byte n none text h k = cc
byte_length-prepend byte n (some rest) [] h k = ground (arith, k)
byte_length-prepend byte n (some rest) (c ∷ text) h k = ground (arith, h rest refl, k)

byte_length-ascii :
    (bytes : List ℕ) (text : Text) → ascii bytes ≡ some text → byte_length text ≡ length bytes
byte_length-ascii [] [] h = refl
byte_length-ascii [] (c ∷ text) h = cc
byte_length-ascii (byte ∷ bytes) text h =
    byte_length-prepend byte (length bytes) (ascii bytes) text (byte_length-ascii bytes) h

abbrev breach_lines : List (List ℕ)
breach_lines =
    codes "0000000000000000000000000000000000000001:3"
    ∷ codes "00000000000000000000000000000000000000ff\r"
    ∷ []

abbrev open_breaches : Text → Result Text File
open_breaches path =
    if text_eq path (codes "breaches.txt")
    then ok (record { is_file = true; bytes = ended breach_lines })
    else err (codes "No such file or directory")

breach_lines-accepted :
    validate_breached_password_file ascii open_breaches
      (codes "breaches.txt")
      (file_options true 1 1000)
    ≡ ok tt
unfolding validate_breached_password_file validate_breach_file_metadata validate_lines lines split
    breached_hash_from_line normalize_sha1_hash split_once trim trim_start is_whitespace
breach_lines-accepted = refl

breached_password_file_contains-sorted_example :
    breached_password_file_contains ascii open_breaches
      (codes "breaches.txt")
      second_hash
      (file_options true 1 1000)
    ≡ breached_password_file_contains ascii open_breaches
        (codes "breaches.txt")
        second_hash
        (file_options false 1 1000)
breached_password_file_contains-sorted_example =
    breached_password_file_contains-sorted ascii ascii-snoc byte_length-ascii open_breaches
      (codes "breaches.txt") (record { is_file = true; bytes = ended breach_lines }) breach_lines 1
      1000 second_hash refl refl (refl, (refl, tt)) (omega arith) breach_lines-accepted

second_found :
    breached_password_file_contains ascii open_breaches
      (codes "breaches.txt")
      second_hash
      (file_options true 1 1000)
    ≡ some (ok true)
unfolding breached_password_file_contains file_contains breached_password_hash_sorted_file_contains
    search_loop seek_probe_line_start back_to_line_start check_line compare_line line_hash_cmp
    validate_breach_file_metadata breached_hash_from_line normalize_sha1_hash split_once trim
    trim_start is_whitespace
second_found = refl
