-- ===== src/AuthDevice/Labels.antt =====
-- What never fails a sign-in: labels with a fallback, and key identifiers with a default.
use world_infra.Prelude.{
  ℕ, ◌≡◌, refl, sym, ap, ◌∙◌, false, not, ◌||◌, Option, none, some, List, all, ltb, Result, ok, err,
  ok_or, guard-ok, ok_injective, ◌==◌,
}
use world_infra.Text.{
  Text, codes, text_eq, byte_length, is_control, is_ascii_alphanumeric, trim, trim_start,
  is_whitespace, is_empty,
}
use world_infra.AuthDevice.{
  AuthDeviceError, empty, invalid, SessionLabel, new_session_label, optional_or_default, to_option,
  and_then, or_else, unwrap_or, validate_key_id, DeviceHashKey, with_key_id, with_key_id_or_default,
  default_key_id, no_bytes,
}

validate_key_id_same : (value out : Text) → validate_key_id value ≡ ok out → value ≡ out
unfolding validate_key_id
validate_key_id_same value out h =
    let (_, h1) = guard-ok (not (text_eq (trim value) value)) (invalid (codes "key_id")) _ out h in
    let (_, h2) = guard-ok (is_empty value) (empty (codes "key_id")) _ out h1 in
    let (_, h3) =
      guard-ok
        (ltb 32 (byte_length value)
          || not (
              all
                (λ byte.
                  is_ascii_alphanumeric byte || (byte == b'-' || byte == b'_' || byte == b'.'))
                value))
        (invalid (codes "key_id")) (ok value) out h2 in
    ok_injective value out (ok value) refl h3

default_valid : validate_key_id default_key_id ≡ ok default_key_id
unfolding validate_key_id trim trim_start is_whitespace is_control is_ascii_alphanumeric
default_valid = refl

valid_or_default :
    (o : Result AuthDeviceError Text) (value : Text)
    → o ≡ validate_key_id value
    → validate_key_id (unwrap_or (to_option o) default_key_id)
      ≡ ok (unwrap_or (to_option o) default_key_id)
valid_or_default (err e) value h = default_valid
valid_or_default (ok out) value h =
    let same = validate_key_id_same value out (sym h) in ap validate_key_id (sym same) ∙ sym h

-- A secret that is not empty always makes a key: an absent or refused identifier gives way to `v1`.
pub with_key_id_or_default-ok :
    (key_id : Option Text) (secret : List ℕ)
    → no_bytes secret ≡ false
    → (key : DeviceHashKey) × (with_key_id_or_default key_id secret ≡ ok key)
      × (validate_key_id key.key_id ≡ ok key.key_id)
      × (key.secret ≡ secret)
unfolding with_key_id_or_default with_key_id
with_key_id_or_default-ok none secret h = (
  record { key_id = default_key_id; secret = secret },
  rw (default_valid, h) refl,
  default_valid,
  refl,
)
with_key_id_or_default-ok (some given) secret h =
    let valid = valid_or_default (validate_key_id (trim given)) (trim given) refl in
    (
      record {
        key_id = unwrap_or (to_option (validate_key_id (trim given))) default_key_id;
        secret = secret;
      },
      rw (valid, h) refl,
      valid,
      refl,
    )

-- With a valid fallback a label is always found: the one given where it is valid, else the fallback.
optional_or_default-ok :
    (value : Option Text) (fallback : Text) (label : SessionLabel)
    → new_session_label fallback ≡ ok label
    → optional_or_default value fallback
      ≡ ok (unwrap_or (and_then value (λ value. to_option (new_session_label value))) label)
unfolding optional_or_default
optional_or_default-ok value fallback label h =
    rw h (given (and_then value (λ value. to_option (new_session_label value))))
  where
    given :
        (o : Option SessionLabel)
        → ok_or (or_else o (some label)) (invalid (codes "session_label")) ≡ ok (unwrap_or o label)
    given none = refl
    given (some found) = refl
