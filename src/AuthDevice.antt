-- ===== src/AuthDevice.antt =====
-- crates/auth-device-core/src/lib.rs: device identifiers, session labels, keys of device hashes, and the
-- bytes that are hashed. HMAC, SHA-256 and the hexadecimal encoding are parameters.
mod Material
mod Labels
mod Tests
use world_infra.Prelude.{
  ℕ, ◌+◌, ◌/◌, ◌%◌, Bool, true, false, not, ◌&&◌, ◌||◌, Option, none, some, is_some, List, [], ◌∷◌,
  ◌++◌, any, all, length, ltb, ◌==◌, Result, ok, err, fail_if, ok_or, ◌>>=◌, ◌>>◌, if◌then◌else◌,
}
use world_infra.Text.{
  Text, codes, text_eq, byte_length, is_control, is_ascii_alphanumeric, trim, is_empty,
}
use world_infra.Text.Scan.{ends_with}
use world_infra.Text.Utf8.{as_bytes}

abbrev pub default_device_id_max_chars : ℕ
default_device_id_max_chars = 128

abbrev pub default_session_label_max_chars : ℕ
default_session_label_max_chars = 80

abbrev pub default_key_id : Text
default_key_id = codes "v1"

abbrev pub default_domain_separator : Text
default_domain_separator = codes "auth-device-core:v1"

pub data AuthDeviceError : Type 0 where
  empty invalid : Text → AuthDeviceError

unfoldable pub validate_visible_trimmed : Text → Text → ℕ → Result AuthDeviceError Text
validate_visible_trimmed value field max_chars = do
  fail_if (not (text_eq (trim value) value)) (invalid field)
  fail_if (is_empty value) (empty field)
  fail_if (ltb max_chars (length value) || any is_control value) (invalid field)
  ok value

unfoldable pub normalized_visible : Option Text → ℕ → Option Text
normalized_visible none max_chars = none
normalized_visible (some value) max_chars =
    let value = trim value in
    if is_empty value || ltb max_chars (length value) || any is_control value
    then none
    else some value

unfoldable pub validate_key_id : Text → Result AuthDeviceError Text
validate_key_id value = do
  fail_if (not (text_eq (trim value) value)) (invalid (codes "key_id"))
  fail_if (is_empty value) (empty (codes "key_id"))
  fail_if
      (ltb 32 (byte_length value)
        || not (
            all
              (λ byte. is_ascii_alphanumeric byte || (byte == b'-' || byte == b'_' || byte == b'.'))
              value))
      (invalid (codes "key_id"))
  ok value

pub record DeviceId : Type 0 where
  pub value : Text

-- `DeviceId::with_max_chars`
unfoldable pub device_id_with_max_chars : Text → ℕ → Result AuthDeviceError DeviceId
device_id_with_max_chars value max_chars = do
  value ← validate_visible_trimmed value (codes "device_id") max_chars
  ok (record { value = value })

-- `DeviceId::new`
unfoldable pub new_device_id : Text → Result AuthDeviceError DeviceId
new_device_id value = device_id_with_max_chars value default_device_id_max_chars

pub record SessionLabel : Type 0 where
  pub value : Text

-- `SessionLabel::with_max_chars`
unfoldable pub session_label_with_max_chars : Text → ℕ → Result AuthDeviceError SessionLabel
session_label_with_max_chars value max_chars = do
  value ← validate_visible_trimmed value (codes "session_label") max_chars
  ok (record { value = value })

-- `SessionLabel::new`
unfoldable pub new_session_label : Text → Result AuthDeviceError SessionLabel
new_session_label value = session_label_with_max_chars value default_session_label_max_chars

-- `Result::ok`, `Option::and_then`, `Option::or_else`, `Option::unwrap_or`
abbrev pub to_option {ℓ κ} : {E : Type ℓ} {A : Type κ} → Result E A → Option A
to_option (ok a) = some a
to_option (err e) = none

abbrev pub and_then {ℓ κ} : {A : Type ℓ} {B : Type κ} → Option A → (A → Option B) → Option B
and_then none f = none
and_then (some a) f = f a

abbrev pub or_else {ℓ} : {A : Type ℓ} → Option A → Option A → Option A
or_else none o = o
or_else (some a) o = some a

abbrev pub unwrap_or {ℓ} : {A : Type ℓ} → Option A → A → A
unwrap_or none a = a
unwrap_or (some b) a = b

unfoldable pub optional_or_default : Option Text → Text → Result AuthDeviceError SessionLabel
optional_or_default value fallback =
    ok_or
      (or_else (and_then value (λ value. to_option (new_session_label value)))
        (to_option (new_session_label fallback)))
      (invalid (codes "session_label"))

pub record DeviceHashInput : Type 0 where
  pub device_id : Option Text
  pub user_agent : Option Text
  pub ip : Option Text

pub record DeviceHashKey : Type 0 where
  pub key_id : Text
  pub secret : List ℕ

abbrev pub no_bytes : List ℕ → Bool
no_bytes [] = true
no_bytes (b ∷ bytes) = false

-- `DeviceHashKey::with_key_id`
unfoldable pub with_key_id : Text → List ℕ → Result AuthDeviceError DeviceHashKey
with_key_id key_id secret = do
  key_id ← validate_key_id key_id
  fail_if (no_bytes secret) (empty (codes "secret"))
  ok (record { key_id = key_id; secret = secret })

-- `DeviceHashKey::new`
unfoldable pub new_device_hash_key : List ℕ → Result AuthDeviceError DeviceHashKey
new_device_hash_key secret = with_key_id default_key_id secret

unfoldable pub with_key_id_or_default : Option Text → List ℕ → Result AuthDeviceError DeviceHashKey
with_key_id_or_default key_id secret =
    with_key_id
      (unwrap_or (and_then key_id (λ value. to_option (validate_key_id (trim value))))
        default_key_id)
      secret

pub data DeviceIdNormalization : Type 0 where
  strict_visible : DeviceIdNormalization
  trimmed : ℕ → Bool → DeviceIdNormalization

pub data FallbackMaterialNormalization : Type 0 where
  trimmed_visible : ℕ → ℕ → FallbackMaterialNormalization
  raw_present : FallbackMaterialNormalization

pub data UnkeyedDeviceIdHash : Type 0 where
  device_id_domain_separated raw_sha256 : UnkeyedDeviceIdHash

pub data UnkeyedIpUserAgentHash : Type 0 where
  ip_user_agent_domain_separated legacy_len_prefixed : UnkeyedIpUserAgentHash

pub record DeviceHashPolicy : Type 0 where
  pub domain_separator : Text
  pub device_id_normalization : DeviceIdNormalization
  pub fallback_normalization : FallbackMaterialNormalization
  pub unkeyed_device_id_hash : UnkeyedDeviceIdHash
  pub unkeyed_ip_user_agent_hash : UnkeyedIpUserAgentHash

-- `DeviceHashPolicy::default`
abbrev pub default_hash_policy : DeviceHashPolicy
default_hash_policy = record {
  domain_separator = default_domain_separator;
  device_id_normalization = strict_visible;
  fallback_normalization = trimmed_visible default_device_id_max_chars 512;
  unkeyed_device_id_hash = device_id_domain_separated;
  unkeyed_ip_user_agent_hash = ip_user_agent_domain_separated;
}

unfoldable pub with_domain_separator :
    DeviceHashPolicy → Text → Result AuthDeviceError DeviceHashPolicy
with_domain_separator policy domain_separator = do
  domain_separator ←
      validate_visible_trimmed domain_separator (codes "domain_separator")
        default_device_id_max_chars
  fail_if (ends_with b':' domain_separator) (invalid (codes "domain_separator"))
  ok (record {
    domain_separator = domain_separator;
    device_id_normalization = policy.device_id_normalization;
    fallback_normalization = policy.fallback_normalization;
    unkeyed_device_id_hash = policy.unkeyed_device_id_hash;
    unkeyed_ip_user_agent_hash = policy.unkeyed_ip_user_agent_hash;
  })

pub data DeviceHashMaterial : Type 0 where
  device_id_material : Text → DeviceHashMaterial
  ip_user_agent : Option Text → Option Text → DeviceHashMaterial

unfoldable pub normalize_device_id_for_hash : Option Text → DeviceIdNormalization → Option Text
normalize_device_id_for_hash value strict_visible =
    and_then value
      (λ value. and_then (to_option (new_device_id value)) (λ device_id. some device_id.value))
normalize_device_id_for_hash value (trimmed max_bytes reject_control) = and_then value (λ value.
    let value = trim value in
    if is_empty value
      || ltb max_bytes (byte_length value)
      || (reject_control && any is_control value)
    then none
    else some value)

unfoldable pub fallback_material :
    DeviceHashInput → FallbackMaterialNormalization → Option Text × Option Text
fallback_material input (trimmed_visible ip_max_chars user_agent_max_chars) = (
  normalized_visible input.ip ip_max_chars,
  normalized_visible input.user_agent user_agent_max_chars,
)
fallback_material input raw_present = (input.ip, input.user_agent)

unfoldable pub device_hash_material : DeviceHashInput → DeviceHashPolicy → Option DeviceHashMaterial
device_hash_material input policy =
    let found = fallback_material input policy.fallback_normalization in
    elim (normalize_device_id_for_hash input.device_id policy.device_id_normalization) [
      | some device_id ↦ some (device_id_material device_id)
      | none ↦
          if not (is_some found.0) && not (is_some found.1)
          then none
          else some (ip_user_agent found.0 found.1)
    ]

-- `u32::to_be_bytes` of a length that is cut to 32 bits.
abbrev pub to_be_bytes : ℕ → List ℕ
to_be_bytes n = (n / 16777216 % 256) ∷ (n / 65536 % 256) ∷ (n / 256 % 256) ∷ (n % 256) ∷ []

unfoldable pub len_prefixed : Text → List ℕ
len_prefixed value = to_be_bytes (byte_length value % 4294967296) ++ as_bytes value

abbrev pub labelled : Text → Option Text → List ℕ
labelled label none = []
labelled label (some value) = as_bytes label ++ len_prefixed value

-- The bytes that `update_hash_material` gives to the digest.
unfoldable pub hash_material : DeviceHashMaterial → Text → List ℕ
hash_material (device_id_material device_id) domain_separator =
    as_bytes domain_separator
    ++ (as_bytes (codes ":") ++ (as_bytes (codes "device-id:") ++ len_prefixed device_id))
hash_material (ip_user_agent ip user_agent) domain_separator =
    as_bytes domain_separator
    ++ (as_bytes (codes ":")
        ++ (as_bytes (codes "ip-ua:")
            ++ (labelled (codes "ip:") ip ++ labelled (codes "ua:") user_agent)))

-- The bytes of an unkeyed hash.
unfoldable pub unkeyed_material : DeviceHashMaterial → DeviceHashPolicy → Option (List ℕ)
unkeyed_material (device_id_material device_id) policy = elim policy.unkeyed_device_id_hash [
  | raw_sha256 ↦ some (as_bytes device_id)
  | device_id_domain_separated ↦
      some (hash_material (device_id_material device_id) policy.domain_separator)
]
unkeyed_material (ip_user_agent ip user_agent) policy = elim policy.unkeyed_ip_user_agent_hash [
  | legacy_len_prefixed ↦
      and_then ip (λ ip.
        and_then user_agent (λ user_agent. some (len_prefixed ip ++ len_prefixed user_agent)))
  | ip_user_agent_domain_separated ↦
      some (hash_material (ip_user_agent ip user_agent) policy.domain_separator)
]

module _ (hmac_sha256 : List ℕ → List ℕ → List ℕ) (sha256 : List ℕ → List ℕ)
    (hex : List ℕ → Text) where
  unfoldable pub hash_with :
      Option DeviceHashKey → DeviceHashPolicy → DeviceHashMaterial → Option Text
  hash_with (some key) policy material = some (
      key.key_id
      ++ b':' ∷ hex (hmac_sha256 key.secret (hash_material material policy.domain_separator)))
  hash_with none policy material =
      and_then (unkeyed_material material policy) (λ bytes. some (hex (sha256 bytes)))

  unfoldable pub compute_device_hash_with_policy :
      DeviceHashInput → Option DeviceHashKey → DeviceHashPolicy → Option Text
  compute_device_hash_with_policy input key policy =
      and_then (device_hash_material input policy) (hash_with key policy)

  unfoldable pub compute_device_hash : DeviceHashInput → Option DeviceHashKey → Option Text
  compute_device_hash input key = compute_device_hash_with_policy input key default_hash_policy
