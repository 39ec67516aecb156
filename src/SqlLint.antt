-- ===== src/SqlLint.antt =====
-- crates/scoped-sql-lint/src/lib.rs: the scanner of source text for raw pool access near sensitive tables.
-- Reading files is a parameter.
pub mod Comments
pub mod Scanning
mod Literals
mod Nearby
mod Findings
mod Tests
