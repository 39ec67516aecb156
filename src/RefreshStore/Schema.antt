-- ===== src/RefreshStore/Schema.antt =====
-- crates/auth-refresh-core/src/lib.rs: errors and their disposition, validation, the key and field
-- configuration, namespaces and sessions. A token that passes `validate_token` is ASCII, so its bytes
-- are its characters.
use world_infra.Prelude.{
  ℕ, Bool, true, false, ◌||◌, not, List, [], ◌∷◌, ◌++◌, ltb, ◌==◌, any, all, Result, ok, err, ◌>>=◌,
  ◌>>◌, fail_if, map_err, if◌then◌else◌,
}
use world_infra.Prelude.Int.{ℤ}
use world_infra.Text.{
  Text, codes, text_eq, byte_length, is_control, is_whitespace, is_ascii_alphanumeric, trim,
  is_empty,
}

pub data RefreshStoreError : Type 0 where
  invalid_namespace invalid_token invalid_schema_config timeout : RefreshStoreError
  invalid_session_field invalid_stored_session backend : Text → RefreshStoreError

pub data RefreshLookupDisposition : Type 0 where
  credential_miss retryable_backend_failure internal_failure : RefreshLookupDisposition

unfoldable pub should_discard_stored_payload : RefreshStoreError → Bool
should_discard_stored_payload (invalid_stored_session e) = true
should_discard_stored_payload _ = false

unfoldable pub lookup_disposition : RefreshStoreError → RefreshLookupDisposition
lookup_disposition invalid_token = credential_miss
lookup_disposition (invalid_stored_session e) = credential_miss
lookup_disposition timeout = retryable_backend_failure
lookup_disposition (backend e) = retryable_backend_failure
lookup_disposition invalid_namespace = internal_failure
lookup_disposition invalid_schema_config = internal_failure
lookup_disposition (invalid_session_field field) = internal_failure

is_credential_miss : RefreshLookupDisposition → Bool
is_credential_miss credential_miss = true
is_credential_miss _ = false

unfoldable pub should_treat_as_credential_miss : RefreshStoreError → Bool
unfolding is_credential_miss lookup_disposition
should_treat_as_credential_miss e = is_credential_miss (lookup_disposition e)

-- `ch.is_control() || ch.is_whitespace()`
abbrev pub is_unsafe : ℕ → Bool
is_unsafe ch = is_control ch || is_whitespace ch

-- The bytes of schema parts and tokens: letters, digits, `-` and `_`.
abbrev pub is_url_safe : ℕ → Bool
is_url_safe byte = is_ascii_alphanumeric byte || byte == b'-' || byte == b'_'

unfoldable pub validate_token : Text → Result RefreshStoreError Text
validate_token token = do
  fail_if
      (is_empty token
        || ltb 1024 (byte_length token)
        || any is_unsafe token
        || not (all is_url_safe token))
      invalid_token
  ok token

unfoldable pub validate_key_part : Text → Result RefreshStoreError Text
validate_key_part value = do
  fail_if (any is_control value) invalid_namespace
  let value = trim value
  fail_if (is_empty value || ltb 256 (byte_length value) || any is_unsafe value) invalid_namespace
  ok value

unfoldable pub validate_schema_part : Text → Result RefreshStoreError Text
validate_schema_part value = do
  fail_if (not (text_eq (trim value) value)) invalid_schema_config
  value ← map_err (λ _. invalid_schema_config) (validate_key_part value)
  fail_if (any (λ byte. not (is_url_safe byte)) value) invalid_schema_config
  ok value

unfoldable pub validate_session_field : Text → Text → Result RefreshStoreError Text
validate_session_field value field = do
  fail_if (is_empty value || ltb 256 (byte_length value) || any is_unsafe value)
      (invalid_session_field field)
  ok value

pub record RefreshStoreConfig : Type 0 where
  pub key_prefix : Text
  pub key_version : Text
  pub subject_id_field : Text
  pub session_id_field : Text
  pub issued_at_unix_secs_field : Text
  pub session_version_field : Text

-- `RefreshStoreConfig::default`
abbrev pub default_config : RefreshStoreConfig
default_config = record {
  key_prefix = codes "rt";
  key_version = codes "v1";
  subject_id_field = codes "subject_id";
  session_id_field = codes "session_id";
  issued_at_unix_secs_field = codes "issued_at_unix_secs";
  session_version_field = codes "session_version";
}

abbrev pub session_fields : RefreshStoreConfig → List Text
session_fields c =
    c.subject_id_field ∷ c.session_id_field ∷ c.issued_at_unix_secs_field ∷ c.session_version_field
    ∷ []

-- The loop over the fields, which compares each with those before it.
unfoldable pub check_distinct : List Text → List Text → Result RefreshStoreError (Unit {0})
check_distinct seen [] = ok tt
check_distinct seen (field ∷ fields) =
    let rest = check_distinct (seen ++ field ∷ []) fields in
    if any (λ other. text_eq other field) seen then err invalid_schema_config else rest

unfoldable pub validate_distinct_session_fields :
    RefreshStoreConfig → Result RefreshStoreError (Unit {0})
validate_distinct_session_fields c = check_distinct [] (session_fields c)

-- `RefreshStoreConfig::new`
unfoldable pub new_config :
    Text → Text → Text → Text → Text → Text → Result RefreshStoreError RefreshStoreConfig
new_config prefix version subject session issued_at session_version = do
  prefix ← validate_schema_part prefix
  version ← validate_schema_part version
  subject ← validate_schema_part subject
  session ← validate_schema_part session
  issued_at ← validate_schema_part issued_at
  session_version ← validate_schema_part session_version
  let config : RefreshStoreConfig = record {
    key_prefix = prefix;
    key_version = version;
    subject_id_field = subject;
    session_id_field = session;
    issued_at_unix_secs_field = issued_at;
    session_version_field = session_version;
  }
  validate_distinct_session_fields config
  ok config

unfoldable pub with_key_version :
    RefreshStoreConfig → Text → Result RefreshStoreError RefreshStoreConfig
with_key_version c version = do
  version ← validate_schema_part version
  ok (record c { key_version = version })

unfoldable pub with_session_fields :
    RefreshStoreConfig → Text → Text → Text → Text → Result RefreshStoreError RefreshStoreConfig
with_session_fields c subject session issued_at session_version = do
  subject ← validate_schema_part subject
  session ← validate_schema_part session
  issued_at ← validate_schema_part issued_at
  session_version ← validate_schema_part session_version
  let config : RefreshStoreConfig = record c {
    subject_id_field = subject;
    session_id_field = session;
    issued_at_unix_secs_field = issued_at;
    session_version_field = session_version;
  }
  validate_distinct_session_fields config
  ok config

pub record RefreshNamespace : Type 0 where
  pub value : Text

unfoldable pub new_namespace : Text → Result RefreshStoreError RefreshNamespace
new_namespace value = do
  value ← map_err (λ _. invalid_namespace) (validate_key_part value)
  ok (record { value = value })

pub record RefreshSession : Type 0 where
  pub subject_id : Text
  pub session_id : Text
  pub issued_at_unix_secs : ℤ
  pub session_version : ℕ

-- `RefreshSession::new`
unfoldable pub new_session : Text → Text → ℤ → ℕ → Result RefreshStoreError RefreshSession
new_session subject_id session_id issued_at session_version = do
  subject_id ← validate_session_field subject_id (codes "subject_id")
  session_id ← validate_session_field session_id (codes "session_id")
  ok (record {
    subject_id = subject_id;
    session_id = session_id;
    issued_at_unix_secs = issued_at;
    session_version = session_version;
  })
