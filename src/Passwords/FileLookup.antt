-- ===== src/Passwords/FileLookup.antt =====
-- The lookup of crates/auth-password-core/src/lib.rs in a file that passed the check as sorted.
use world_infra.Prelude.{
  ℕ, ◌≤◌, ◌<◌, ◌≡◌, refl, sym, ap, ◌∙◌, subst, Bool, true, false, not, Option, some, List, [], ◌∷◌,
  ◌++◌, All, length, ltb, Result, ok, map_err, ◌>>◌, none, Result-cases, inl, inr, ok_injective,
  then-ok, bind-ok, guard-ok, arith,
}
use world_infra.Text.{Text, byte_length}
use world_infra.Passwords.{breach_file}
use world_infra.Passwords.Breaches.{
  BreachedPasswordFileOptions, File, normalize_sha1_hash, validate_breach_file_metadata, lines,
  scan_loop, breached_password_hash_sorted_file_contains,
  breached_password_hash_linear_scan_contains,
}
use world_infra.Passwords.Policy.{
  open_path, validate_lines, validate_breached_password_file, file_contains,
  breached_password_file_contains,
}
use world_infra.Passwords.ScannedLines.{ended, IsPlain, add_char}
use world_infra.Passwords.LinearScan.{sorted_file_contains-scan_loop}

abbrev pub file_options : Bool → ℕ → ℕ → BreachedPasswordFileOptions
file_options sorted min_bytes linear_scan_max_bytes = record {
  sorted = sorted;
  min_bytes = min_bytes;
  linear_scan_max_bytes = linear_scan_max_bytes;
}

-- A file within the limit that passes the checks of a sorted one passes those of one that is not.
metadata-unsorted :
    (file : File) (min_bytes linear_scan_max_bytes : ℕ)
    → length file.bytes ≤ linear_scan_max_bytes
    → validate_breach_file_metadata file (file_options true min_bytes linear_scan_max_bytes) ≡ ok tt
    → validate_breach_file_metadata file (file_options false min_bytes linear_scan_max_bytes)
      ≡ ok tt
unfolding validate_breach_file_metadata
metadata-unsorted file min_bytes linear_scan_max_bytes small h =
    let (is_file, h) = guard-ok (not file.is_file) _ _ tt h in
    let (long, _) = guard-ok (ltb (length file.bytes) min_bytes) _ _ tt h in
    let within : ltb linear_scan_max_bytes (length file.bytes) ≡ false = ground (arith, small) in
    rw (is_file, long, within) refl

file_contains-unsorted :
    (from_utf8 : List ℕ → Option Text) (open_file : Text → Result Text File) (file : File)
    → (min_bytes linear_scan_max_bytes : ℕ) (password_hash : Text)
    → length file.bytes ≤ linear_scan_max_bytes
    → validate_breach_file_metadata file (file_options true min_bytes linear_scan_max_bytes) ≡ ok tt
    → ((hash : Text)
        → breached_password_hash_sorted_file_contains from_utf8 file.bytes hash
          ≡ some (scan_loop from_utf8 1 (lines file.bytes) hash))
    → file_contains from_utf8 open_file file password_hash
        (file_options true min_bytes linear_scan_max_bytes)
      ≡ file_contains from_utf8 open_file file password_hash
          (file_options false min_bytes linear_scan_max_bytes)
unfolding file_contains breached_password_hash_linear_scan_contains
file_contains-unsorted from_utf8 open_file file min_bytes linear_scan_max_bytes password_hash small
      h same =
    let k = metadata-unsorted file min_bytes linear_scan_max_bytes small h in
    elim (Result-cases (normalize_sha1_hash password_hash)) [
      | inl (hash, e) ↦
          rw (file_contains, h, k, e)
            (same hash
              ∙ ap (λ done. some (done >> scan_loop from_utf8 1 (lines file.bytes) hash)) (sym k))
      | inr (error, e) ↦ rw (file_contains, h, k, e) refl
    ]

-- What the check of a file has checked.
accepted_lines :
    (from_utf8 : List ℕ → Option Text) (open_file : Text → Result Text File) (path : Text)
    (file : File)
    → (options : BreachedPasswordFileOptions) → open_file path ≡ ok file
    → validate_breached_password_file from_utf8 open_file path options ≡ ok tt
    → (validate_breach_file_metadata file options ≡ ok tt)
      × (validate_lines from_utf8 options.sorted 1 none (lines file.bytes) ≡ ok tt)
unfolding validate_breached_password_file
accepted_lines from_utf8 open_file path file options opened h =
    let (found, at, h) = bind-ok (open_path from_utf8 open_file path) _ tt h in
    let (checked, h) = then-ok (validate_breach_file_metadata found options) _ tt h in
    let (read, _) =
      then-ok (validate_lines from_utf8 options.sorted 1 none (lines found.bytes)) _ tt h in
    subst
      (λ file.
        (validate_breach_file_metadata file options ≡ ok tt)
        × (validate_lines from_utf8 options.sorted 1 none (lines file.bytes) ≡ ok tt))
      (ok_injective found file (open_path from_utf8 open_file path) at
        (ap (map_err breach_file) opened))
      (checked, read)

-- For a file of lines without a newline in them, each of which ends in one, where decoding appends an ASCII
-- byte as a character and keeps the number of bytes: when the file opens, is not longer than the limit of
-- the scan and is accepted as a sorted one, the lookup of any hash by the search gives what the lookup by
-- the scan of all lines gives, an error included.
pub breached_password_file_contains-sorted :
    (from_utf8 : List ℕ → Option Text)
    → ((bytes : List ℕ) (c : ℕ)
        → c < 128
        → from_utf8 (bytes ++ c ∷ []) ≡ add_char c (from_utf8 bytes))
    → ((bytes : List ℕ) (text : Text)
        → from_utf8 bytes ≡ some text
        → byte_length text ≡ length bytes)
    → (open_file : Text → Result Text File) (path : Text) (file : File)
    → (bodies : List (List ℕ)) (min_bytes linear_scan_max_bytes : ℕ) (password_hash : Text)
    → open_file path ≡ ok file
    → file.bytes ≡ ended bodies
    → All IsPlain bodies
    → length file.bytes ≤ linear_scan_max_bytes
    → validate_breached_password_file from_utf8 open_file path
        (file_options true min_bytes linear_scan_max_bytes)
      ≡ ok tt
    → breached_password_file_contains from_utf8 open_file path password_hash
        (file_options true min_bytes linear_scan_max_bytes)
      ≡ breached_password_file_contains from_utf8 open_file path password_hash
          (file_options false min_bytes linear_scan_max_bytes)
unfolding breached_password_file_contains
breached_password_file_contains-sorted from_utf8 snoc sized open_file path file bodies min_bytes
      linear_scan_max_bytes password_hash opened whole plain small accepted =
    let (checked, read) =
      accepted_lines from_utf8 open_file path file
        (file_options true min_bytes linear_scan_max_bytes) opened accepted in
    rw (breached_password_file_contains, opened)
      (file_contains-unsorted from_utf8 open_file file min_bytes linear_scan_max_bytes password_hash
        small checked
        (λ hash.
          subst
            (λ bytes.
              breached_password_hash_sorted_file_contains from_utf8 bytes hash
              ≡ some (scan_loop from_utf8 1 (lines bytes) hash))
            (sym whole)
            (sorted_file_contains-scan_loop from_utf8 snoc sized hash bodies plain (
              ap (λ bytes. validate_lines from_utf8 true 1 none (lines bytes)) (sym whole)
              ∙ read))))
