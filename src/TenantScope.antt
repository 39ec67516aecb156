-- ===== src/TenantScope.antt =====
-- crates/tenant-scope-sqlx/src/lib.rs: names and values of PostgreSQL settings, and the transactions
-- that set them. The database is a parameter: a transaction, and what runs a query on it with the
-- values that are bound, or answers with the text of an
-- error, after which PostgreSQL has aborted the transaction.
pub mod Literal
pub mod Names
mod Tests
use world_infra.Prelude.{
  ℕ, suc, Bool, true, false, not, ◌&&◌, ◌||◌, List, [], ◌∷◌, ◌++◌, any, all, leb, ltb, ◌==◌, Result,
  ok, err, ◌>>=◌, ◌>>◌, fail_if, map_err, if◌then◌else◌,
}
use world_infra.Prelude.Int.{ℤ, pos, negsuc}
use world_infra.Text.{Text, codes, byte_length, is_control, trim, is_empty}
use world_infra.Text.Decimal.{decimal}
use world_infra.Text.Scan.{
  is_ascii_lowercase, is_ascii_digit, starts_with, ends_with, split, replace,
}

pub data TenantScopeError : Type 0 where
  invalid_setting_name invalid_setting_value : TenantScopeError
  sql : Text → TenantScopeError

pub record SettingName : Type 0 where
  pub value : Text

unfoldable pub is_unquoted_identifier : Text → Bool
is_unquoted_identifier [] = false
is_unquoted_identifier (ch ∷ chars) =
    leb (byte_length (ch ∷ chars)) 63
    && (is_ascii_lowercase ch || ch == b'_')
    && all (λ c. is_ascii_lowercase c || is_ascii_digit c || c == b'_') chars

-- `SettingName::new`
unfoldable pub new_setting_name : Text → Result TenantScopeError SettingName
new_setting_name value = do
  fail_if (any is_control value) invalid_setting_name
  let value = trim value
  fail_if
      (is_empty value
        || ltb 128 (byte_length value)
        || starts_with b'.' value
        || ends_with b'.' value
        || any (λ part. not (is_unquoted_identifier part)) (split b'.' value))
      invalid_setting_name
  ok (record { value = value })

-- The values that implement `ScopeValue`: texts, signed and unsigned integers.
pub data ScopeValue : Type 0 where
  text : Text → ScopeValue
  signed : ℤ → ScopeValue
  unsigned : ℕ → ScopeValue

unfoldable pub to_scope_value : ScopeValue → Result TenantScopeError Text
to_scope_value (text value) = do fail_if (any (λ ch. ch == 0) value) invalid_setting_value; ok value
to_scope_value (signed (pos n)) = ok (decimal n)
to_scope_value (signed (negsuc n)) = ok (b'-' ∷ decimal (suc n))
to_scope_value (unsigned n) = ok (decimal n)

pub record ScopeAssignment : Type 0 where
  pub name : SettingName
  pub value : Text

-- `ScopeAssignment::new`
unfoldable pub new_assignment : SettingName → ScopeValue → Result TenantScopeError ScopeAssignment
new_assignment name value = do
  value ← to_scope_value value
  ok (record { name = name; value = value })

unfoldable pub from_parts : Text → ScopeValue → Result TenantScopeError ScopeAssignment
from_parts name value = do name ← new_setting_name name; new_assignment name value

unfoldable pub quote_setting_value : ScopeValue → Result TenantScopeError Text
quote_setting_value value = do
  value ← to_scope_value value
  let escaped = replace b'\'' (codes "''") (replace b'\\' (codes "\\\\") value)
  ok (codes "E'" ++ (escaped ++ codes "'"))

unfoldable pub set_local_statement : SettingName → ScopeValue → Result TenantScopeError Text
set_local_statement name value = do
  quoted ← quote_setting_value value
  ok (codes "SET LOCAL " ++ (name.value ++ (codes " = " ++ quoted)))

module _ {ℓ} {Tx : Type ℓ} (execute : Tx → Text → List Text → Result Text Tx) where
  unfoldable pub set_local : Tx → SettingName → ScopeValue → Result TenantScopeError Tx
  set_local tx name value = do
    value ← to_scope_value value
    map_err sql (execute tx (codes "SELECT set_config($1, $2, true)") (name.value ∷ value ∷ []))

  unfoldable pub set_local_i64 : Tx → SettingName → ℤ → Result TenantScopeError Tx
  set_local_i64 tx name value = set_local tx name (signed value)

  unfoldable pub set_local_i32 : Tx → SettingName → ℤ → Result TenantScopeError Tx
  set_local_i32 tx name value = set_local tx name (signed value)

  unfoldable pub set_local_u64 : Tx → SettingName → ℕ → Result TenantScopeError Tx
  set_local_u64 tx name value = set_local tx name (unsigned value)

  unfoldable pub set_local_u32 : Tx → SettingName → ℕ → Result TenantScopeError Tx
  set_local_u32 tx name value = set_local tx name (unsigned value)

  unfoldable pub set_local_str : Tx → SettingName → Text → Result TenantScopeError Tx
  set_local_str tx name value = set_local tx name (text value)

  unfoldable pub set_local_assignment : Tx → ScopeAssignment → Result TenantScopeError Tx
  set_local_assignment tx assignment = set_local tx assignment.name (text assignment.value)

  unfoldable pub set_local_many : Tx → List ScopeAssignment → Result TenantScopeError Tx
  set_local_many tx [] = ok tx
  set_local_many tx (assignment ∷ assignments) = do
    tx ← set_local_assignment tx assignment
    set_local_many tx assignments

  unfoldable pub begin_scoped_tx :
      Result Text Tx → List ScopeAssignment → Result TenantScopeError Tx
  begin_scoped_tx begin assignments = do tx ← map_err sql begin; set_local_many tx assignments

  unfoldable pub begin_readonly_repeatable_scoped_tx :
      Result Text Tx → List ScopeAssignment → Result TenantScopeError Tx
  begin_readonly_repeatable_scoped_tx begin assignments = do
    tx ← map_err sql begin
    tx ←
        map_err sql
          (execute tx (codes "SET TRANSACTION ISOLATION LEVEL REPEATABLE READ, READ ONLY") [])
    set_local_many tx assignments
