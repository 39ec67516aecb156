-- ===== src/SqlLint/Nearby.antt =====
-- The lines near a line, against the slices that crates/scoped-sql-lint/src/lib.rs takes.
use world_infra.Prelude.{
  ℕ, zero, suc, ◌+◌, ◌-◌, ◌≡◌, refl, ap, ◌∙◌, sym, min, Bool, not, ◌||◌, ◌&&◌, some, is_some,
  is_some_and, List, [], ◌∷◌, any, length, take, arith,
}
use world_infra.Text.{Text}
use world_infra.Text.Scan.{to_ascii_lowercase, join, contains}
use world_infra.SqlLint.Comments.{is_allow_comment}
use world_infra.SqlLint.Scanning.{
  ScopedSqlLintConfig, get_line, drop_lines, find_text, contains_identifier, previous_line,
  is_allowed, nearby_sensitive_table, no_patterns,
}

-- The lines from a first to a last index, both with them.
unfoldable pub between : ℕ → ℕ → List Text → List Text
between first last [] = []
between zero zero (line ∷ lines) = line ∷ []
between zero (suc last) (line ∷ lines) = line ∷ between zero last lines
between (suc first) zero (line ∷ lines) = []
between (suc first) (suc last) (line ∷ lines) = between first last lines

between-take :
    (last n : ℕ) (lines : List Text)
    → min (suc last) (length lines) ≡ n
    → take n lines ≡ between zero last lines
unfolding between
between-take last zero [] h = refl
between-take last (suc n) [] h = refl
between-take zero zero (line ∷ lines) h = absurd (omega (arith, h))
between-take zero (suc zero) (line ∷ lines) h = refl
between-take zero (suc (suc n)) (line ∷ lines) h = absurd (omega (arith, h))
between-take (suc last) zero (line ∷ lines) h = absurd (omega (arith, h))
between-take (suc last) (suc n) (line ∷ lines) h =
    ap (line ∷◌) (between-take last n lines (omega (arith, h)))

between-drop_lines :
    (first last n : ℕ) (lines : List Text)
    → min (suc last) (length lines) - first ≡ n
    → take n (drop_lines first lines) ≡ between first last lines
unfolding between
between-drop_lines zero last n lines h = between-take last n lines (omega (arith, h))
between-drop_lines (suc first) last zero [] h = refl
between-drop_lines (suc first) last (suc n) [] h = refl
between-drop_lines (suc first) zero zero (line ∷ lines) h = refl
between-drop_lines (suc first) zero (suc n) (line ∷ lines) h = absurd (omega (arith, h))
between-drop_lines (suc first) (suc last) n (line ∷ lines) h =
    between-drop_lines first last n lines (omega (arith, h))

-- A line and the one above it.
any-between :
    (p : Text → Bool) (index : ℕ) (line : Text) (lines : List Text)
    → get_line lines index ≡ some line
    → any p (between (index - 1) index lines)
      ≡ (p line || is_some_and (previous_line lines index) p)
unfolding between
any-between p index line [] h = absurd cc
any-between p zero line (first ∷ lines) h = ground (arith, h)
any-between p (suc zero) line (first ∷ []) h = absurd cc
any-between p (suc zero) line (first ∷ second ∷ lines) h = ground (arith, h)
any-between p (suc (suc index)) line (first ∷ lines) h =
    let here : suc (suc index) - 1 ≡ suc index = omega arith in
    let there : index ≡ suc index - 1 = omega arith in
    ap (λ k. any p (between k (suc (suc index)) (first ∷ lines))) here
    ∙ ap (λ k. any p (between k (suc index) lines)) there
    ∙ any-between p (suc index) line lines h

-- Near a line: no further away than the radius of the context.
abbrev pub near_text : ScopedSqlLintConfig → List Text → ℕ → Text
near_text config lines index =
    to_ascii_lowercase
      (join b'\n' (between (index - config.context_radius) (index + config.context_radius) lines))

-- A line is to be reviewed when it has a raw pattern, neither it nor the line above it has an allow comment,
-- and a sensitive table is named in the lines near it or none is configured.
abbrev pub needs_review : ScopedSqlLintConfig → List Text → ℕ → Text → Bool
needs_review config lines index line =
    any (λ pattern. contains pattern line) config.raw_pool_patterns
    && (not (
          any (λ near. is_allow_comment near config.allow_comment_prefix)
            (between (index - 1) index lines))
        && (no_patterns config.sensitive_tables
            || any (contains_identifier (near_text config lines index)) config.sensitive_tables))

is_some-find_text : (p : Text → Bool) (ts : List Text) → is_some (find_text p ts) ≡ any p ts
is_some-find_text p [] = refl
is_some-find_text p (t ∷ ts) = ground (arith, is_some-find_text p ts)

is_allowed-between :
    (lines : List Text) (index : ℕ) (line allow_prefix : Text)
    → get_line lines index ≡ some line
    → is_allowed lines index line allow_prefix
      ≡ any (λ near. is_allow_comment near allow_prefix) (between (index - 1) index lines)
unfolding is_allowed
is_allowed-between lines index line allow_prefix h =
    sym (any-between (λ near. is_allow_comment near allow_prefix) index line lines h)

nearby_sensitive_table-near_text :
    (lines : List Text) (index : ℕ) (config : ScopedSqlLintConfig)
    → is_some (nearby_sensitive_table lines index config)
      ≡ any (contains_identifier (near_text config lines index)) config.sensitive_tables
unfolding nearby_sensitive_table
nearby_sensitive_table-near_text lines index config =
    let start = index - config.context_radius in
    let end = min (index + config.context_radius + 1) (length lines) in
    ap
      (λ near. is_some (
        find_text (contains_identifier (to_ascii_lowercase (join b'\n' near)))
          config.sensitive_tables))
      (between-drop_lines start (index + config.context_radius) (end - start) lines (omega arith))
    ∙ is_some-find_text (contains_identifier (near_text config lines index)) config.sensitive_tables

-- What the scan asks of a line is whether it is to be reviewed.
pub scan_conditions :
    (config : ScopedSqlLintConfig) (lines : List Text) (index : ℕ) (line : Text)
    → get_line lines index ≡ some line
    → (is_some (find_text (λ pattern. contains pattern line) config.raw_pool_patterns)
        && (not (is_allowed lines index line config.allow_comment_prefix)
            && (no_patterns config.sensitive_tables
                || is_some (nearby_sensitive_table lines index config))))
      ≡ needs_review config lines index line
scan_conditions config lines index line h =
    rw
      (
        is_some-find_text (λ pattern. contains pattern line) config.raw_pool_patterns,
        is_allowed-between lines index line config.allow_comment_prefix h,
        nearby_sensitive_table-near_text lines index config,
      )
      refl
