-- ===== src/SqlLint/Tests.antt =====
-- Lines and sources at concrete inputs.
use world_infra.Prelude.{◌≡◌, refl, true, false, some, is_some, [], ◌∷◌, List}
use world_infra.Text.{Text, codes, trim, trim_start, is_whitespace, is_ascii_alphanumeric}
use world_infra.Text.Scan.{split, join, strip_prefix, strip_suffix}
use world_infra.SqlLint.Comments.{
  line_comment, comment_loop, string_literal_end, quoted_string_end, raw_string_literal_end,
  skip_hashes, raw_body_end, strip_hashes, is_allow_comment, first_comment,
}
use world_infra.SqlLint.Scanning.{
  ScopedSqlFindingWithSnippet, new_lint_config, validate_config, no_patterns, is_identifier_char,
  has_free_match, contains_identifier, nearby_sensitive_table, is_allowed, pattern_finding,
  scan_line, scan_lines, end_lines, scan_source_inner,
}
use world_infra.SqlLint.Literals.{Literal, string, raw, plain, escaped, line_comment-segments_text}
use world_infra.SqlLint.Nearby.{between}
use world_infra.SqlLint.Findings.{found_at, scan_source_inner-needs_review}

abbrev line : Text
line = codes "f(\"//\"); // ok"

-- f("\"//", r#"//"#) // ok
abbrev segments : List (Text × Literal)
segments =
    (codes "f(", string false (escaped b'"' ∷ plain b'/' ∷ plain b'/' ∷ []))
    ∷ (codes ", ", raw false 1 (codes "//"))
    ∷ []

line_comment-segments_text_example :
    line_comment (codes "f(\"\\\"//\", r#\"//\"#) // ok") ≡ some (codes "// ok")
unfolding first_comment
line_comment-segments_text_example =
    line_comment-segments_text segments (codes ") // ok") ((refl, refl, (refl, refl, tt))) refl

literal_test : line_comment line ≡ some (codes "// ok")
unfolding line_comment comment_loop string_literal_end quoted_string_end raw_string_literal_end
    skip_hashes raw_body_end strip_hashes
literal_test = refl

abbrev source : Text
source = codes "q(&self.pool) orders"

abbrev findings : List ScopedSqlFindingWithSnippet
findings =
    record {
      finding = record {
        line = 1;
        pattern = codes "&self.pool";
        table = some (codes "Orders");
        message = codes "raw pool access near world/tenant-sensitive SQL needs scoped review";
      };
      snippet = source;
    }
    ∷ []

scan_source_inner-needs_review_example : is_some (found_at 0 findings) ≡ true
unfolding scan_source_inner validate_config no_patterns is_identifier_char has_free_match
    contains_identifier nearby_sensitive_table is_allowed pattern_finding scan_line scan_lines
    end_lines line_comment comment_loop string_literal_end quoted_string_end raw_string_literal_end
    skip_hashes raw_body_end strip_hashes is_allow_comment split join strip_prefix strip_suffix
    new_lint_config trim trim_start is_whitespace is_ascii_alphanumeric between
scan_source_inner-needs_review_example =
    scan_source_inner-needs_review source (new_lint_config (codes "Orders" ∷ [])) findings 0 source
      refl refl
