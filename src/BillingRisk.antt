-- ===== src/BillingRisk.antt =====
-- crates/billing-risk-core/src/lib.rs: provider identifiers, webhook dispositions, and the redaction of
-- JSON snapshots. `serde_json::Value` is a data type here, a map the list of its entries in their order;
-- a number is carried along as its text.
mod Redaction
mod Webhooks
mod Tests
use mathlib.Core.List.{reverse}
use world_infra.Prelude.{
  ℕ, suc, Bool, true, false, not, ◌&&◌, ◌||◌, Option, none, some, is_some_and, List, [], ◌∷◌, ◌++◌,
  any, ltb, ◌==◌, Result, ok, err, fail_if, ◌>>=◌, ◌>>◌, if◌then◌else◌,
}
use world_infra.Text.{
  Text, codes, text_eq, byte_length, is_control, is_whitespace, is_ascii_alphanumeric, trim,
  is_empty,
}
use world_infra.Text.Scan.{
  ascii_lower, is_ascii_lowercase, is_ascii_uppercase, is_ascii_digit, ends_with, strip_suffix,
  trim_matches,
}

pub data BillingRiskError : Type 0 where
  empty invalid : Text → BillingRiskError

unfoldable pub validate_label : Text → Text → Result BillingRiskError Text
validate_label field value = do
  fail_if (any is_control value) (invalid field)
  let value = trim value
  fail_if (is_empty value) (empty field)
  fail_if
      (ltb 128 (byte_length value)
        || any
            (λ ch.
              not (
                is_ascii_alphanumeric ch || (ch == b'-' || ch == b'_' || ch == b'.' || ch == b':')))
            value)
      (invalid field)
  ok value

unfoldable pub validate_provider_id : Text → Text → Result BillingRiskError Text
validate_provider_id field value = do
  fail_if (any is_control value) (invalid field)
  let value = trim value
  fail_if (is_empty value) (empty field)
  fail_if (ltb 256 (byte_length value) || any (λ ch. is_control ch || is_whitespace ch) value)
      (invalid field)
  ok value

pub record ProviderObjectId : Type 0 where
  pub kind : Text
  pub id : Text

-- `ProviderObjectId::new`
unfoldable pub new_provider_object_id : Text → Text → Result BillingRiskError ProviderObjectId
new_provider_object_id kind id = do
  kind ← validate_label (codes "kind") kind
  id ← validate_provider_id (codes "id") id
  ok (record { kind = kind; id = id })

pub record PolicyVersion : Type 0 where
  pub value : Text

-- `PolicyVersion::new`
unfoldable pub new_policy_version : Text → Result BillingRiskError PolicyVersion
new_policy_version value = do
  value ← validate_label (codes "policy_version") value
  ok (record { value = value })

pub record SupportMessageRef : Type 0 where
  pub value : Text

-- `SupportMessageRef::new`
unfoldable pub new_support_message_ref : Text → Result BillingRiskError SupportMessageRef
new_support_message_ref value = do
  value ← validate_provider_id (codes "support_message_ref") value
  ok (record { value = value })

pub data WebhookIngestDisposition : Type 0 where
  ack retry ignore ack_applied ack_duplicate ack_ignored : WebhookIngestDisposition

unfoldable pub should_ack_provider : WebhookIngestDisposition → Bool
should_ack_provider retry = false
should_ack_provider _ = true

unfoldable pub should_retry_provider : WebhookIngestDisposition → Bool
should_retry_provider retry = true
should_retry_provider _ = false

unfoldable pub classify_webhook_persistence : Bool → Bool → Bool → WebhookIngestDisposition
classify_webhook_persistence duplicate persisted applied =
    if duplicate then ack_duplicate else if persisted && applied then ack_applied else retry

abbrev pub default_sensitive_keys : List Text
default_sensitive_keys =
    codes "access_token"
    ∷ codes "api_key"
    ∷ codes "authorization"
    ∷ codes "client_secret"
    ∷ codes "cvc"
    ∷ codes "id_token"
    ∷ codes "number"
    ∷ codes "password"
    ∷ codes "refresh_token"
    ∷ codes "secret"
    ∷ codes "secret_key"
    ∷ codes "token"
    ∷ codes "webhook_secret"
    ∷ []

abbrev next_is_lowercase : Text → Bool
next_is_lowercase [] = false
next_is_lowercase (next ∷ chars) = is_ascii_lowercase next

-- What the loop of `normalize_snapshot_key` keeps: two flags and the text so far.
pub record Normalizing : Type 0 where
  pub previous_was_lower_or_digit : Bool
  pub previous_was_uppercase : Bool
  pub normalized : Text

abbrev pub separate : Bool → Text → Text
separate wanted normalized =
    if wanted && not (ends_with b'_' normalized) then normalized ++ b'_' ∷ [] else normalized

unfoldable pub normalize_char : Normalizing → ℕ → Text → Normalizing
normalize_char state ch chars =
    if is_ascii_uppercase ch
    then record {
      previous_was_lower_or_digit = false;
      previous_was_uppercase = true;
      normalized =
          separate
            (state.previous_was_lower_or_digit
              || (state.previous_was_uppercase && next_is_lowercase chars))
            state.normalized
          ++ ascii_lower ch ∷ [];
    }
    else if is_ascii_lowercase ch || is_ascii_digit ch
    then record {
      previous_was_lower_or_digit = true;
      previous_was_uppercase = false;
      normalized = state.normalized ++ ascii_lower ch ∷ [];
    }
    else record {
      previous_was_lower_or_digit = false;
      previous_was_uppercase = false;
      normalized = separate (not (is_empty state.normalized)) state.normalized;
    }

unfoldable pub normalize_loop : Normalizing → Text → Text
normalize_loop state [] = state.normalized
normalize_loop state (ch ∷ chars) = normalize_loop (normalize_char state ch chars) chars

unfoldable pub normalize_snapshot_key : Text → Text
normalize_snapshot_key value = trim_matches b'_' (
    normalize_loop
      (record {
        previous_was_lower_or_digit = false;
        previous_was_uppercase = false;
        normalized = [];
      })
      value)

unfoldable pub is_sensitive_snapshot_key : Text → List Text → Bool
is_sensitive_snapshot_key key sensitive_keys =
    let key = normalize_snapshot_key key in
    any
      (λ sensitive.
        let sensitive = normalize_snapshot_key sensitive in
        not (is_empty sensitive)
        && (text_eq key sensitive
            || is_some_and (strip_suffix sensitive key) (λ prefix. ends_with b'_' prefix)))
      sensitive_keys

mutual
  -- `serde_json::Value`
  pub data Value : Type 0 where
    null : Value
    bool : Bool → Value
    number string : Text → Value
    array : Items → Value
    object : Entries → Value

  pub data Items : Type 0 where
    no_items : Items
    item : Value → Items → Items

  pub data Entries : Type 0 where
    no_entries : Entries
    entry : Text → Value → Entries → Entries

abbrev pub redacted_text : Value
redacted_text = string (codes "[redacted]")

unfoldable mutual
  pub redact_json_snapshot : Value → List Text → Value
  redact_json_snapshot (object map) sensitive_keys = object (redact_entries map sensitive_keys)
  redact_json_snapshot (array items) sensitive_keys = array (redact_items items sensitive_keys)
  redact_json_snapshot null sensitive_keys = null
  redact_json_snapshot (bool b) sensitive_keys = bool b
  redact_json_snapshot (number n) sensitive_keys = number n
  redact_json_snapshot (string s) sensitive_keys = string s

  pub redact_items : Items → List Text → Items
  redact_items no_items sensitive_keys = no_items
  redact_items (item value items) sensitive_keys =
      item (redact_json_snapshot value sensitive_keys) (redact_items items sensitive_keys)

  pub redact_entries : Entries → List Text → Entries
  redact_entries no_entries sensitive_keys = no_entries
  redact_entries (entry key value map) sensitive_keys =
      entry key
        (if is_sensitive_snapshot_key key sensitive_keys
          then redacted_text
          else redact_json_snapshot value sensitive_keys)
        (redact_entries map sensitive_keys)
