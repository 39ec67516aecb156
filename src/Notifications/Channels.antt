-- ===== src/Notifications/Channels.antt =====
-- crates/notification-core/src/lib.rs: channels, targets, attempts and the context of a delivery. An `i32` is
-- an integer, a `u32` a number of at most `u32_max`.
use world_infra.Prelude.{
  ℕ, Bool, not, ◌||◌, Option, none, some, ltb, ◌==◌, Result, ok, err, fail_if, ◌>>=◌, ◌>>◌,
  if◌then◌else◌,
}
use world_infra.Prelude.Int.{ℤ, pos, negsuc}
use world_infra.Text.{Text, codes, text_eq, byte_length, is_control, trim, is_empty}
use world_infra.Text.Scan.{to_ascii_lowercase, is_ascii_lowercase, is_ascii_digit, find}
use world_infra.Notifications.{
  NotificationError, empty, too_long, invalid_character, unknown_channel, invalid_attempt,
  DeliveryVersion, new_version,
}
use world_infra.Delivery.{increment}

pub data NotificationChannel : Type 0 where
  email browser_push fcm apns webhook : NotificationChannel

abbrev pub channel_label : NotificationChannel → Text
channel_label email = codes "email"
channel_label browser_push = codes "browser_push"
channel_label fcm = codes "fcm"
channel_label apns = codes "apns"
channel_label webhook = codes "webhook"

abbrev pub is_push_label : Text → Bool
is_push_label label =
    text_eq label (codes "browser_push")
    || (text_eq label (codes "browser-push")
        || (text_eq label (codes "web_push")
            || (text_eq label (codes "web-push") || text_eq label (codes "push"))))

abbrev pub channel_of_label : Text → Result NotificationError NotificationChannel
channel_of_label label =
    if text_eq label (codes "email") || text_eq label (codes "smtp")
    then ok email
    else if is_push_label label
    then ok browser_push
    else if text_eq label (codes "fcm")
    then ok fcm
    else if text_eq label (codes "apns")
    then ok apns
    else if text_eq label (codes "webhook")
    then ok webhook
    else err (unknown_channel label)

-- `NotificationChannel::from_str`
unfoldable pub parse_channel : Text → Result NotificationError NotificationChannel
parse_channel value = channel_of_label (to_ascii_lowercase (trim value))

-- `find(..)` of a character that is not allowed.
abbrev pub refuse_found : Text → Option ℕ → Result NotificationError (Unit {0})
refuse_found field none = ok tt
refuse_found field (some ch) = err (invalid_character field ch)

-- What targets and failure codes have in common: a text that is trimmed, not empty and not too long.
abbrev pub validated_field : Text → ℕ → Text → Result NotificationError Text
validated_field field max value = do
  refuse_found field (find is_control value)
  let value = trim value
  fail_if (is_empty value) (empty field)
  fail_if (ltb max (byte_length value)) (too_long field (byte_length value) max)
  ok value

pub record NotificationTarget : Type 0 where
  pub value : Text

-- `NotificationTarget::new`
unfoldable pub new_target : Text → Result NotificationError NotificationTarget
new_target value = do
  value ← validated_field (codes "target") 1024 value
  ok (record { value = value })

pub record ProviderFailureCode : Type 0 where
  pub value : Text

abbrev pub is_code_char : ℕ → Bool
is_code_char ch = is_ascii_lowercase ch || (is_ascii_digit ch || ch == b'_')

-- `ProviderFailureCode::new`
unfoldable pub new_failure_code : Text → Result NotificationError ProviderFailureCode
new_failure_code value = do
  value ← validated_field (codes "provider_failure_code") 128 value
  refuse_found (codes "provider_failure_code") (find (λ ch. not (is_code_char ch)) value)
  ok (record { value = value })

-- A positive `u32`.
pub record NotificationAttempt : Type 0 where
  pub value : ℕ

-- `NotificationAttempt::new`
unfoldable pub new_attempt : ℕ → Result NotificationError NotificationAttempt
new_attempt value = if value == 0 then err invalid_attempt else ok (record { value = value })

-- `NotificationAttempt::from_i32`
unfoldable pub attempt_from_i32 : ℤ → Result NotificationError NotificationAttempt
attempt_from_i32 (pos value) = if value == 0 then err invalid_attempt else new_attempt value
attempt_from_i32 (negsuc n) = err invalid_attempt

-- `NotificationAttempt::from_completed_count`
unfoldable pub next_attempt : ℕ → NotificationAttempt
next_attempt completed_count = record { value = increment completed_count }

-- `NotificationAttempt::from_completed_count_i32`
unfoldable pub next_attempt_i32 : ℤ → Result NotificationError NotificationAttempt
next_attempt_i32 (pos completed_count) = ok (next_attempt completed_count)
next_attempt_i32 (negsuc n) = err invalid_attempt

pub record NotificationDeliveryContext {ℓ} (DeliveryId : Type ℓ) : Type ℓ where
  pub delivery_id : DeliveryId
  pub channel : NotificationChannel
  pub delivery_version : DeliveryVersion
  pub attempt : NotificationAttempt

module _ {ℓ} {DeliveryId : Type ℓ} (delivery_id : DeliveryId) (channel : Text)
    (delivery_version : ℤ) where
  -- The fields in the order of the constructors' `?`, the last one by `attempt`.
  abbrev pub context_with :
      Result NotificationError NotificationAttempt
      → Result NotificationError (NotificationDeliveryContext DeliveryId)
  context_with attempt = do
    channel ← parse_channel channel
    version ← new_version delivery_version
    attempt ← attempt
    ok (record {
      delivery_id = delivery_id;
      channel = channel;
      delivery_version = version;
      attempt = attempt;
    })

  unfoldable pub from_raw_fields :
      ℕ → Result NotificationError (NotificationDeliveryContext DeliveryId)
  from_raw_fields attempt = context_with (new_attempt attempt)

  unfoldable pub from_raw_i32_fields :
      ℤ → Result NotificationError (NotificationDeliveryContext DeliveryId)
  from_raw_i32_fields attempt = context_with (attempt_from_i32 attempt)

  unfoldable pub from_completed_count_fields :
      ℕ → Result NotificationError (NotificationDeliveryContext DeliveryId)
  from_completed_count_fields completed_count = context_with (ok (next_attempt completed_count))

  unfoldable pub from_completed_count_i32_fields :
      ℤ → Result NotificationError (NotificationDeliveryContext DeliveryId)
  from_completed_count_i32_fields completed_count = context_with (next_attempt_i32 completed_count)
