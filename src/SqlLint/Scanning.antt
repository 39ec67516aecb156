-- ===== src/SqlLint/Scanning.antt =====
-- crates/scoped-sql-lint/src/lib.rs: the scan of the lines of a source, and identifiers in a window.
use world_infra.Prelude.{
  ℕ, zero, suc, ◌+◌, ◌-◌, min, Bool, true, false, not, ◌&&◌, ◌||◌, Option, none, some, is_some,
  is_some_and, List, [], ◌∷◌, ◌++◌, map, length, take, ◌==◌, Result, ok, fail_if, map_err, ◌>>=◌,
  ◌>>◌, if◌then◌else◌,
}
use world_infra.Text.{Text, codes, is_ascii_alphanumeric, trim, is_empty}
use world_infra.Text.Scan.{to_ascii_lowercase, split, join, strip_prefix, strip_suffix, contains}
use world_infra.SqlLint.Comments.{is_allow_comment}

pub record ScopedSqlLintConfig : Type 0 where
  pub sensitive_tables : List Text
  pub raw_pool_patterns : List Text
  pub allow_comment_prefix : Text
  pub context_radius : ℕ

-- `ScopedSqlLintConfig::new`
unfoldable pub new_lint_config : List Text → ScopedSqlLintConfig
new_lint_config tables = record {
  sensitive_tables = tables;
  raw_pool_patterns =
      codes "&self.pool" ∷ codes "sqlx_pool()" ∷ codes "require_sqlx_pool" ∷ codes ".pool()" ∷ [];
  allow_comment_prefix = codes "scoped-sqlx-lint: allow";
  context_radius = 8;
}

pub record ScopedSqlFinding : Type 0 where
  pub line : ℕ
  pub pattern : Text
  pub table : Option Text
  pub message : Text

pub record ScopedSqlFindingWithSnippet : Type 0 where
  pub finding : ScopedSqlFinding
  pub snippet : Text

pub record ScopedSqlFileFinding : Type 0 where
  pub path : Text
  pub line : ℕ
  pub pattern : Text
  pub table : Option Text
  pub snippet : Text
  pub message : Text

unfoldable pub as_finding : ScopedSqlFileFinding → ScopedSqlFinding
as_finding finding = record {
  line = finding.line;
  pattern = finding.pattern;
  table = finding.table;
  message = finding.message;
}

unfoldable pub into_file_finding : ScopedSqlFindingWithSnippet → Text → ScopedSqlFileFinding
into_file_finding found path = record {
  path = path;
  line = found.finding.line;
  pattern = found.finding.pattern;
  table = found.finding.table;
  snippet = found.snippet;
  message = found.finding.message;
}

pub data ScopedSqlLintError : Type 0 where
  missing_raw_pool_patterns missing_allow_comment_prefix : ScopedSqlLintError

pub data ScopedSqlFileLintError : Type 0 where
  config_error : ScopedSqlLintError → ScopedSqlFileLintError
  io : Text → Text → ScopedSqlFileLintError

unfoldable pub no_patterns : List Text → Bool
no_patterns [] = true
no_patterns (pattern ∷ patterns) = false

unfoldable pub validate_config : ScopedSqlLintConfig → Result ScopedSqlLintError (Unit {0})
validate_config config = do
  fail_if (no_patterns config.raw_pool_patterns) missing_raw_pool_patterns
  fail_if (is_empty (trim config.allow_comment_prefix)) missing_allow_comment_prefix

-- `slice::get`
abbrev pub get_line : List Text → ℕ → Option Text
get_line [] index = none
get_line (line ∷ lines) zero = some line
get_line (line ∷ lines) (suc index) = get_line lines index

abbrev pub drop_lines : ℕ → List Text → List Text
drop_lines zero lines = lines
drop_lines (suc n) [] = []
drop_lines (suc n) (line ∷ lines) = drop_lines n lines

abbrev pub find_text : (Text → Bool) → List Text → Option Text
find_text p [] = none
find_text p (t ∷ ts) = let rest = find_text p ts in if p t then some t else rest

unfoldable pub is_identifier_char : ℕ → Bool
is_identifier_char ch = is_ascii_alphanumeric ch || ch == b'_'

abbrev first_char : Text → Option ℕ
first_char [] = none
first_char (c ∷ s) = some c

-- The matches of a table that do not overlap, from left to right: `skip` characters belong to the last
-- one, `before` stands in front of the rest.
unfoldable pub has_free_match : Text → ℕ → Option ℕ → Text → Bool
has_free_match table skip before [] = false
has_free_match table (suc skip) before (c ∷ s) = has_free_match table skip (some c) s
has_free_match table zero before (c ∷ s) = elim (strip_prefix table (c ∷ s)) [
  | none ↦ has_free_match table zero (some c) s
  | some rest ↦
      (not (is_some_and before is_identifier_char)
        && not (is_some_and (first_char rest) is_identifier_char))
      || has_free_match table (length table - 1) (some c) s
]

unfoldable pub contains_identifier : Text → Text → Bool
contains_identifier window table =
    let table = to_ascii_lowercase table in
    if is_empty table then false else has_free_match table 0 none window

unfoldable pub nearby_sensitive_table : List Text → ℕ → ScopedSqlLintConfig → Option Text
nearby_sensitive_table lines index config =
    let start = index - config.context_radius in
    let end = min (index + config.context_radius + 1) (length lines) in
    let window = to_ascii_lowercase (join b'\n' (take (end - start) (drop_lines start lines))) in
    find_text (contains_identifier window) config.sensitive_tables

-- `checked_sub(1).and_then(|previous| lines.get(previous))`
abbrev pub previous_line : List Text → ℕ → Option Text
previous_line lines zero = none
previous_line lines (suc previous) = get_line lines previous

unfoldable pub is_allowed : List Text → ℕ → Text → Text → Bool
is_allowed lines index line allow_prefix =
    is_allow_comment line allow_prefix
    || is_some_and (previous_line lines index) (λ line. is_allow_comment line allow_prefix)

-- The body of the loop for one line and the raw pattern in it: `none` where it goes on to the next.
unfoldable pub pattern_finding :
    ScopedSqlLintConfig → List Text → ℕ → Text → Option Text → Option ScopedSqlFindingWithSnippet
pattern_finding config lines index line none = none
pattern_finding config lines index line (some pattern) =
    let table = nearby_sensitive_table lines index config in
    if is_allowed lines index line config.allow_comment_prefix
      || (not (is_some table) && not (no_patterns config.sensitive_tables))
    then none
    else some (record {
      finding = record {
        line = index + 1;
        pattern = pattern;
        table = table;
        message = codes "raw pool access near world/tenant-sensitive SQL needs scoped review";
      };
      snippet = trim line;
    })

unfoldable pub scan_line :
    ScopedSqlLintConfig → List Text → ℕ → Text → Option ScopedSqlFindingWithSnippet
scan_line config lines index line =
    pattern_finding config lines index line
      (find_text (λ pattern. contains pattern line) config.raw_pool_patterns)

abbrev pub push_found :
    Option ScopedSqlFindingWithSnippet
    → List ScopedSqlFindingWithSnippet
    → List ScopedSqlFindingWithSnippet
push_found none findings = findings
push_found (some found) findings = found ∷ findings

unfoldable pub scan_lines :
    ScopedSqlLintConfig → List Text → ℕ → List Text → List ScopedSqlFindingWithSnippet
scan_lines config lines index [] = []
scan_lines config lines index (line ∷ rest) =
    push_found (scan_line config lines index line) (scan_lines config lines (suc index) rest)

-- `str::lines`: the parts between line feeds, the last one only when it is not empty, each without
-- the carriage return in front of its line feed.
abbrev strip_cr : Text → Text
strip_cr line = elim (strip_suffix (b'\r' ∷ []) line) [ none ↦ line | some rest ↦ rest ]

unfoldable pub end_lines : List Text → List Text
end_lines [] = []
end_lines (line ∷ []) = if is_empty line then [] else line ∷ []
end_lines (line ∷ next ∷ parts) = strip_cr line ∷ end_lines (next ∷ parts)

unfoldable pub scan_source_inner :
    Text → ScopedSqlLintConfig → Result ScopedSqlLintError (List ScopedSqlFindingWithSnippet)
scan_source_inner source config = do
  validate_config config
  let lines = end_lines (split b'\n' source)
  ok (scan_lines config lines 0 lines)

unfoldable pub scan_source :
    Text → ScopedSqlLintConfig → Result ScopedSqlLintError (List ScopedSqlFinding)
scan_source source config = do
  findings ← scan_source_inner source config
  ok (map (λ found. found.finding) findings)

-- Files: `read` answers with the text of a path, or with the message of an error.
module _ (read : Text → Result Text Text) where
  unfoldable pub scan_file :
      Text → ScopedSqlLintConfig → Result ScopedSqlFileLintError (List ScopedSqlFileFinding)
  scan_file path config = do
    source ← map_err (io path) (read path)
    findings ← map_err config_error (scan_source_inner source config)
    ok (map (λ found. into_file_finding found path) findings)

  unfoldable pub scan_paths :
      List Text → ScopedSqlLintConfig → Result ScopedSqlFileLintError (List ScopedSqlFileFinding)
  scan_paths [] config = ok []
  scan_paths (path ∷ paths) config = do
    found ← scan_file path config
    findings ← scan_paths paths config
    ok (found ++ findings)

  unfoldable pub scan_files :
      List Text → ScopedSqlLintConfig → Result ScopedSqlFileLintError (List ScopedSqlFileFinding)
  scan_files paths config = do
    map_err config_error (validate_config config)
    scan_paths paths config
