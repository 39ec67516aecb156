-- ===== src/SqlLint/Findings.antt =====
-- Which lines of a source the scan of crates/scoped-sql-lint/src/lib.rs flags.
use world_infra.Prelude.{
  ℕ, zero, suc, ◌+◌, ◌≡◌, refl, sym, ap, ◌∙◌, subst, ◌<◌, inl, inr, false, not, ◌&&◌, ◌||◌, Option,
  none, some, is_some, Bool-cases, List, [], ◌∷◌, ◌==◌, ==_iff, ok, bind-ok, ok_injective, arith,
  if◌then◌else◌,
}
use world_infra.Text.{Text}
use world_infra.Text.Scan.{split, contains}
use world_infra.SqlLint.Nearby.{needs_review, scan_conditions}
use world_infra.SqlLint.Scanning.{
  ScopedSqlLintConfig, ScopedSqlFindingWithSnippet, validate_config, get_line, find_text,
  is_allowed, nearby_sensitive_table, no_patterns, pattern_finding, scan_line, push_found,
  scan_lines, end_lines, scan_source_inner,
}

-- The finding of the line at an index.
unfoldable pub found_at : ℕ → List ScopedSqlFindingWithSnippet → Option ScopedSqlFindingWithSnippet
found_at index [] = none
found_at index (found ∷ findings) =
    let rest = found_at index findings in
    if found.finding.line == index + 1 then some found else rest

pattern_finding-is_some :
    (config : ScopedSqlLintConfig) (lines : List Text) (index : ℕ) (line : Text) (o : Option Text)
    → is_some (pattern_finding config lines index line o) ≡ (
        is_some o
        && (not (is_allowed lines index line config.allow_comment_prefix)
            && (no_patterns config.sensitive_tables
                || is_some (nearby_sensitive_table lines index config))))
unfolding pattern_finding
pattern_finding-is_some config lines index line none = refl
pattern_finding-is_some config lines index line (some pattern) = ground arith

abbrev line_of : Option ScopedSqlFindingWithSnippet → ℕ → ℕ
line_of none index = index + 1
line_of (some found) index = found.finding.line

pattern_finding-line :
    (config : ScopedSqlLintConfig) (lines : List Text) (index : ℕ) (line : Text) (o : Option Text)
    → line_of (pattern_finding config lines index line o) index ≡ index + 1
unfolding pattern_finding
pattern_finding-line config lines index line none = refl
pattern_finding-line config lines index line (some pattern) =
    let refused =
      is_allowed lines index line config.allow_comment_prefix
      || (not (is_some (nearby_sensitive_table lines index config))
          && not (no_patterns config.sensitive_tables)) in
    elim (Bool-cases refused) [ inl skipped ↦ rw skipped refl | inr kept ↦ rw kept refl ]

scan_line-needs_review :
    (config : ScopedSqlLintConfig) (lines : List Text) (index : ℕ) (line : Text)
    → get_line lines index ≡ some line
    → is_some (scan_line config lines index line) ≡ needs_review config lines index line
unfolding scan_line
scan_line-needs_review config lines index line h =
    pattern_finding-is_some config lines index line
      (find_text (λ pattern. contains pattern line) config.raw_pool_patterns)
    ∙ scan_conditions config lines index line h

scan_line-line :
    (config : ScopedSqlLintConfig) (lines : List Text) (index : ℕ) (line : Text)
    (found : ScopedSqlFindingWithSnippet)
    → scan_line config lines index line ≡ some found
    → found.finding.line ≡ index + 1
unfolding scan_line
scan_line-line config lines index line found h =
    ap (λ o. line_of o index) (sym h)
    ∙ pattern_finding-line config lines index line
        (find_text (λ pattern. contains pattern line) config.raw_pool_patterns)

-- What one step puts in front.
found_at-push_found :
    (index at : ℕ) (o : Option ScopedSqlFindingWithSnippet)
    (findings : List ScopedSqlFindingWithSnippet)
    → ((found : ScopedSqlFindingWithSnippet) → o ≡ some found → found.finding.line ≡ at + 1)
    → ((at ≡ index) → found_at index findings ≡ none)
    → found_at index (push_found o findings) ≡ (if at == index then o else found_at index findings)
unfolding found_at
found_at-push_found index at none findings line later = ground (arith, later)
found_at-push_found index at (some found) findings line later =
    let here = line found refl in ground (arith, here)

found_at-earlier :
    (config : ScopedSqlLintConfig) (lines : List Text) (rest : List Text) (at index : ℕ)
    → index < at
    → found_at index (scan_lines config lines at rest) ≡ none
unfolding scan_lines found_at
found_at-earlier config lines [] at index h = refl
found_at-earlier config lines (line ∷ rest) at index h =
    let later = found_at-earlier config lines rest (suc at) index (omega (arith, h)) in
    found_at-push_found index at (scan_line config lines at line)
      (scan_lines config lines (suc at) rest) (scan_line-line config lines at line) (λ e. later)
    ∙ ground (arith, later)

found_at-scan_lines :
    (config : ScopedSqlLintConfig) (lines : List Text) (rest : List Text) (at offset index : ℕ)
    (line : Text)
    → get_line rest offset ≡ some line
    → index ≡ at + offset
    → found_at index (scan_lines config lines at rest) ≡ scan_line config lines index line
unfolding scan_lines
found_at-scan_lines config lines [] at offset index line h e = absurd cc
found_at-scan_lines config lines (first ∷ rest) at zero index line h e =
    let here : at ≡ index = omega (arith, e) in
    found_at-push_found index at (scan_line config lines at first)
      (scan_lines config lines (suc at) rest) (scan_line-line config lines at first)
      (λ k. found_at-earlier config lines rest (suc at) index (omega (arith, k)))
    ∙ rw ((==_iff at index).1 here) (cc)
found_at-scan_lines config lines (first ∷ rest) at (suc offset) index line h e =
    let past : (at == index) ≡ false = ground (arith, e) in
    found_at-push_found index at (scan_line config lines at first)
      (scan_lines config lines (suc at) rest) (scan_line-line config lines at first)
      (λ k. absurd (omega (arith, e, k)))
    ∙ rw past
        (found_at-scan_lines config lines rest (suc at) offset index line h (omega (arith, e)))

-- A scan that the configuration allows flags a line exactly when the line has a raw pattern, neither it
-- nor the line above has an allow comment, and a sensitive table is named in the lines that are no further
-- away than the radius of the context, or none is configured; the finding has the line's number.
pub scan_source_inner-needs_review :
    (source : Text) (config : ScopedSqlLintConfig) (findings : List ScopedSqlFindingWithSnippet)
    (index : ℕ) (line : Text)
    → scan_source_inner source config ≡ ok findings
    → get_line (end_lines (split b'\n' source)) index ≡ some line
    → is_some (found_at index findings)
      ≡ needs_review config (end_lines (split b'\n' source)) index line
unfolding scan_source_inner
scan_source_inner-needs_review source config findings index line h at =
    let lines = end_lines (split b'\n' source) in
    let (u, valid, k) =
      bind-ok (validate_config config) (λ _. ok (scan_lines config lines 0 lines)) findings h in
    let same : scan_lines config lines 0 lines ≡ findings =
      ok_injective (scan_lines config lines 0 lines) findings (ok (scan_lines config lines 0 lines))
        refl k in
    subst (λ fs. is_some (found_at index fs) ≡ needs_review config lines index line) same
      (ap is_some (found_at-scan_lines config lines lines 0 index index line at (omega arith))
        ∙ scan_line-needs_review config lines index line at)
