-- ===== src/Passwords/Breaches.antt =====
-- crates/auth-password-core/src/lib.rs: the lookup of a hash in a file of breached passwords. A file is its
-- bytes. Parameters are the opening of a file, which tells the error or the file, and the decoding of
-- UTF-8. A file that is open does not change and its bytes can be read.
use world_infra.Prelude.{
  ℕ, zero, suc, ◌+◌, ◌-◌, ◌/◌, Bool, true, false, not, ◌&&◌, ◌||◌, Option, none, some, List, [],
  ◌∷◌, ◌++◌, all, map, length, ltb, leb, ◌==◌, Result, ok, err, fail_if, ok_or, ◌>>=◌, ◌>>◌,
  if◌then◌else◌,
}
use world_infra.Text.{Text, codes, text_eq, byte_length, trim, is_empty}
use world_infra.Text.Scan.{is_ascii_digit, split, split_once}
use world_infra.Text.Decimal.{decimal}
use world_infra.Passwords.{PasswordError, breach_file}

pub data Ordering : Type 0 where
  less equal greater : Ordering

-- `str::cmp`
abbrev pub text_cmp : Text → Text → Ordering
text_cmp [] [] = equal
text_cmp [] (d ∷ t) = less
text_cmp (c ∷ s) [] = greater
text_cmp (c ∷ s) (d ∷ t) = if ltb c d then less else if ltb d c then greater else text_cmp s t

abbrev pub ascii_upper : ℕ → ℕ
ascii_upper c = if leb b'a' c && leb c b'z' then c - 32 else c

abbrev pub is_ascii_hexdigit : ℕ → Bool
is_ascii_hexdigit byte =
    is_ascii_digit byte || ((leb b'a' byte && leb byte b'f') || (leb b'A' byte && leb byte b'F'))

unfoldable pub normalize_sha1_hash : Text → Result PasswordError Text
normalize_sha1_hash value =
    let value = trim value in
    if byte_length value == 40 && all is_ascii_hexdigit value
    then ok (map ascii_upper value)
    else err (breach_file (codes "invalid breached password SHA-1 hash"))

-- `split_once(':').map(..).unwrap_or(line)`
abbrev pub before_count : Text → Text
before_count line = elim (split_once b':' line) [ none ↦ line | some halves ↦ halves.0 ]

abbrev pub ok_option {ℓ} : {A : Type ℓ} → Result PasswordError A → Option A
ok_option (ok a) = some a
ok_option (err e) = none

unfoldable pub breached_hash_from_line : Text → Option Text
breached_hash_from_line line = ok_option (normalize_sha1_hash (trim (before_count line)))

unfoldable pub line_hash_cmp : Text → Text → Result PasswordError Ordering
line_hash_cmp line password_hash = do
  hash ←
      ok_or (breached_hash_from_line line)
        (breach_file (codes "invalid breached password SHA-1 entry"))
  ok (text_cmp hash password_hash)

pub record BreachedPasswordFileOptions : Type 0 where
  pub sorted : Bool
  pub min_bytes : ℕ
  pub linear_scan_max_bytes : ℕ

pub record File : Type 0 where
  pub is_file : Bool
  pub bytes : List ℕ

unfoldable pub validate_breach_file_metadata :
    File → BreachedPasswordFileOptions → Result PasswordError (Unit {0})
validate_breach_file_metadata file options = do
  fail_if (not file.is_file) (breach_file (codes "breached password SHA-1 path is not a file"))
  let len = length file.bytes
  fail_if (ltb len options.min_bytes) (
      breach_file (
        codes "breached password SHA-1 file is "
        ++ (decimal len ++ (codes " bytes; minimum is " ++ decimal options.min_bytes))))
  fail_if (not options.sorted && ltb options.linear_scan_max_bytes len) (
      breach_file (
        codes "breached password SHA-1 file is "
        ++ (decimal len
            ++ (codes " bytes; linear scan limit is "
                ++ (decimal options.linear_scan_max_bytes ++ codes " bytes")))))

-- The bytes from a position on, and the byte at one.
abbrev pub drop : ℕ → List ℕ → List ℕ
drop zero bytes = bytes
drop (suc n) [] = []
drop (suc n) (byte ∷ bytes) = drop n bytes

abbrev pub is_newline_at : List ℕ → ℕ → Bool
is_newline_at [] pos = false
is_newline_at (byte ∷ bytes) zero = byte == b'\n'
is_newline_at (byte ∷ bytes) (suc pos) = is_newline_at bytes pos

-- The bytes that `read_line` takes: up to a newline and with it.
abbrev pub take_line : List ℕ → List ℕ
take_line [] = []
take_line (byte ∷ bytes) = byte ∷ (if byte == b'\n' then [] else take_line bytes)

-- The loop that goes back to the start of a line.
unfoldable pub back_to_line_start : List ℕ → ℕ → ℕ
back_to_line_start bytes zero = 0
back_to_line_start bytes (suc previous_pos) =
    let further = back_to_line_start bytes previous_pos in
    if is_newline_at bytes previous_pos then suc previous_pos else further

unfoldable pub seek_probe_line_start : List ℕ → ℕ → ℕ → ℕ
seek_probe_line_start bytes mid len =
    if mid == 0
    then 0
    else if leb len mid
    then len
    else if is_newline_at bytes mid
    then mid + 1
    else back_to_line_start bytes mid

-- `BufRead::lines`: without the newlines, and without a carriage return in front of one.
abbrev pub strip_return : List ℕ → List ℕ
strip_return [] = []
strip_return (byte ∷ []) = if byte == b'\r' then [] else byte ∷ []
strip_return (byte ∷ next ∷ bytes) = byte ∷ strip_return (next ∷ bytes)

-- The parts that end in a newline, and the last part if it is not empty.
abbrev pub ended_lines : List (List ℕ) → List (List ℕ)
ended_lines [] = []
ended_lines (last ∷ []) = if is_empty last then [] else last ∷ []
ended_lines (line ∷ next ∷ lines) = strip_return line ∷ ended_lines (next ∷ lines)

unfoldable pub lines : List ℕ → List (List ℕ)
lines bytes = ended_lines (split b'\n' bytes)

abbrev pub is_equal : Ordering → Bool
is_equal equal = true
is_equal _ = false

module _ (from_utf8 : List ℕ → Option Text) where
  abbrev pub decode : List ℕ → Result PasswordError Text
  decode bytes = ok_or (from_utf8 bytes) (breach_file (codes "stream did not contain valid UTF-8"))

  -- The order of the line's hash and the hash that is looked for.
  unfoldable pub compare_line : List ℕ → Text → Result PasswordError Ordering
  compare_line line password_hash = do line ← decode line; line_hash_cmp line password_hash

  -- The last look, at the line that begins at a position.
  unfoldable pub check_line : List ℕ → Text → ℕ → Result PasswordError Bool
  check_line bytes password_hash low =
      let line = take_line (drop low bytes) in
      if is_empty line
      then ok false
      else (do order ← compare_line line password_hash; ok (is_equal order))

  -- What a comparison leads to; `continue` is the rest of the loop, from a low and a high position.
  abbrev pub by_order :
      (ℕ → ℕ → Option (Result PasswordError Bool))
      → ℕ
      → ℕ
      → ℕ
      → List ℕ
      → Result PasswordError Ordering
      → Option (Result PasswordError Bool)
  by_order continue low high line_start line (err e) = some (err e)
  by_order continue low high line_start line (ok equal) = some (ok true)
  by_order continue low high line_start line (ok less) = continue (line_start + length line) high
  by_order continue low high line_start line (ok greater) = continue low line_start

  abbrev pub look_at_line :
      (ℕ → ℕ → Option (Result PasswordError Bool))
      → Text
      → ℕ
      → ℕ
      → ℕ
      → List ℕ
      → Option (Result PasswordError Bool)
  look_at_line continue password_hash low high line_start line =
      if is_empty line
      then some (ok false)
      else by_order continue low high line_start line (compare_line line password_hash)

  abbrev pub look_from :
      (ℕ → ℕ → Option (Result PasswordError Bool))
      → List ℕ
      → Text
      → ℕ
      → ℕ
      → ℕ
      → Option (Result PasswordError Bool)
  look_from continue bytes password_hash low high line_start =
      if leb high line_start
      then some (check_line bytes password_hash low)
      else look_at_line continue password_hash low high line_start
          (take_line (drop line_start bytes))

  -- The loop, on fuel; `none` tells that it was not enough.
  unfoldable pub search_loop : ℕ → List ℕ → Text → ℕ → ℕ → Option (Result PasswordError Bool)
  search_loop zero bytes password_hash low high = none
  search_loop (suc fuel) bytes password_hash low high = elim (ltb low high) [
    | false ↦ some (check_line bytes password_hash low)
    | true ↦
        look_from (search_loop fuel bytes password_hash) bytes password_hash low high
          (seek_probe_line_start bytes (low + (high - low) / 2) (length bytes))
  ]

  unfoldable pub breached_password_hash_sorted_file_contains :
      List ℕ → Text → Option (Result PasswordError Bool)
  breached_password_hash_sorted_file_contains bytes password_hash =
      if length bytes == 0
      then some (ok false)
      else search_loop (suc (length bytes)) bytes password_hash 0 (length bytes)

  -- The loop over the lines, with the number of the next line.
  unfoldable pub scan_loop : ℕ → List (List ℕ) → Text → Result PasswordError Bool
  scan_loop number [] password_hash = ok false
  scan_loop number (line ∷ lines) password_hash =
      let further = scan_loop (number + 1) lines password_hash in
      decode line >>= λ line.
      if is_empty (trim line)
      then further
      else ok_or (breached_hash_from_line line)
          (breach_file (codes "invalid breached password SHA-1 entry on line " ++ decimal number))
        >>= λ hash. if text_eq hash password_hash then ok true else further

  unfoldable pub breached_password_hash_linear_scan_contains :
      File → Text → BreachedPasswordFileOptions → Result PasswordError Bool
  breached_password_hash_linear_scan_contains file password_hash options = do
    validate_breach_file_metadata file options
    scan_loop 1 (lines file.bytes) password_hash
