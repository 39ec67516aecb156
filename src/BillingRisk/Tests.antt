-- ===== src/BillingRisk/Tests.antt =====
-- A snapshot at concrete paths.
use world_infra.Prelude.{◌≡◌, refl, some, [], ◌∷◌, true}
use world_infra.Text.{codes}
use world_infra.Text.Scan.{strip_suffix, strip_prefix, trim_matches, trim_start_matches}
use world_infra.BillingRisk.{
  Value, object, entry, no_entries, number, string, redacted_text, default_sensitive_keys,
  redact_json_snapshot, is_sensitive_snapshot_key, normalize_snapshot_key, normalize_loop,
  normalize_char,
}
use world_infra.BillingRisk.Redaction.{
  key, get_path, get, get_entry, leaf, shape, shape_at, shown_shape, shape_at-redact,
}

abbrev card : Value
card = object (
    entry (codes "cardNumber") (number (codes "4242"))
      (entry (codes "brand") (string (codes "visa")) no_entries))

abbrev snapshot : Value
snapshot = object (entry (codes "card") card no_entries)

camel_case_test : is_sensitive_snapshot_key (codes "cardNumber") default_sensitive_keys ≡ true
unfolding is_sensitive_snapshot_key normalize_snapshot_key normalize_loop normalize_char
    strip_suffix strip_prefix trim_matches trim_start_matches
camel_case_test = refl

shape_at-redact_example :
    shape_at
      (key (codes "card") ∷ key (codes "brand") ∷ [])
      (redact_json_snapshot snapshot default_sensitive_keys)
    ≡ some (leaf (string (codes "visa")))
unfolding shown_shape shape_at shape get get_entry get_path is_sensitive_snapshot_key
    normalize_snapshot_key normalize_loop normalize_char strip_suffix strip_prefix trim_matches
    trim_start_matches
shape_at-redact_example =
    shape_at-redact default_sensitive_keys (key (codes "card") ∷ key (codes "brand") ∷ []) snapshot

number_redacted :
    shape_at
      (key (codes "card") ∷ key (codes "cardNumber") ∷ [])
      (redact_json_snapshot snapshot default_sensitive_keys)
    ≡ some (leaf redacted_text)
unfolding shown_shape shape_at shape get get_entry get_path is_sensitive_snapshot_key
    normalize_snapshot_key normalize_loop normalize_char strip_suffix strip_prefix trim_matches
    trim_start_matches redact_json_snapshot
number_redacted = refl
