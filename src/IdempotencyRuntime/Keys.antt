-- ===== src/IdempotencyRuntime/Keys.antt =====
-- crates/idempotency-runtime-core/src/lib.rs: errors, namespaces, and the keys of the volatile stores.
use world_infra.Prelude.{
  ◌||◌, Option, none, some, ◌++◌, ltb, any, Result, ok, ◌>>=◌, ◌>>◌, fail_if, map_err,
}
use world_infra.Text.{Text, codes, byte_length, is_control, is_whitespace, trim, is_empty}
use world_infra.Text.Decimal.{decimal}

pub data IdempotencyRuntimeError : Type 0 where
  invalid_namespace invalid_key timeout unsupported_marker : IdempotencyRuntimeError
  backend : Text → IdempotencyRuntimeError

pub data IdempotencyKeyFormat : Type 0 where
  length_prefixed namespace_prefix : IdempotencyKeyFormat

pub record IdempotencyNamespace : Type 0 where
  pub value : Text

unfoldable pub validate_part : Text → Result IdempotencyRuntimeError Text
validate_part value = do
  fail_if (any is_control value) invalid_key
  let value = trim value
  fail_if
      (is_empty value
        || ltb 512 (byte_length value)
        || any (λ ch. is_control ch || is_whitespace ch) value)
      invalid_key
  ok value

-- `IdempotencyNamespace::new`
unfoldable pub new_namespace : Text → Result IdempotencyRuntimeError IdempotencyNamespace
new_namespace value = do
  value ← map_err (λ _. invalid_namespace) (validate_part value)
  ok (record { value = value })

-- The match of `namespaced_key`, on a key that is valid.
unfoldable pub format_key : IdempotencyKeyFormat → Option IdempotencyNamespace → Text → Text
format_key length_prefixed (some namespace) key =
    codes "idem:"
    ++ (decimal (byte_length namespace.value)
        ++ (codes ":"
            ++ (namespace.value
                ++ (codes ":" ++ (decimal (byte_length key) ++ (codes ":" ++ key))))))
format_key length_prefixed none key =
    codes "idem:0::" ++ (decimal (byte_length key) ++ (codes ":" ++ key))
format_key namespace_prefix (some namespace) key = namespace.value ++ (codes ":" ++ key)
format_key namespace_prefix none key = key

unfoldable pub namespaced_key :
    Option IdempotencyNamespace → Text → IdempotencyKeyFormat → Result IdempotencyRuntimeError Text
namespaced_key namespace key key_format = do
  key ← validate_part key
  ok (format_key key_format namespace key)
