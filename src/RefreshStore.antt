-- ===== src/RefreshStore.antt =====
-- crates/auth-refresh-core/src/lib.rs: the in-memory refresh-token store. `sha256` is the digest of
-- the `sha2` crate, from bytes to bytes; `limit` is the last representable `Instant`. A method reads
-- `now` before it takes the lock, so calls come in the order of their locks with times in any order.
-- A poisoned mutex answers with the text of its error.
pub mod Schema
pub mod SchemaLaws
pub mod KeyLaws
pub mod Rotation
pub mod SingleUse
mod Tests
use world_infra.Prelude.{
  ℕ, ◌+◌, ◌-◌, ◌/◌, ◌%◌, Bool, true, false, ◌&&◌, Option, none, some, List, [], ◌∷◌, ◌++◌, ltb, leb,
  ◌==◌, Result, ok, err, ◌>>=◌, ◌>>◌, if◌then◌else◌, is_some_and,
}
use world_infra.Prelude.Int.{ℤ, pos, negsuc}
use world_infra.Text.{Text, codes, text_eq}
use world_infra.Map.{get, insert, remove, text_key}
use world_infra.Time.{instant_saturating_add, ttl_duration}
use Schema.{
  RefreshStoreError, backend, validate_token, RefreshStoreConfig, default_config, RefreshNamespace,
  RefreshSession,
}

-- `HEX[n]`, for `n` below 16.
unfoldable pub hex_digit : ℕ → ℕ
hex_digit n = if ltb n 10 then b'0' + n else b'a' + (n - 10)

unfoldable pub hex_lower : List ℕ → Text
hex_lower [] = []
hex_lower (byte ∷ bytes) = hex_digit (byte / 16) ∷ hex_digit (byte % 16) ∷ hex_lower bytes

abbrev int_eq : ℤ → ℤ → Bool
int_eq (pos m) (pos n) = m == n
int_eq (negsuc m) (negsuc n) = m == n
int_eq _ _ = false

-- `PartialEq` as derived for `RefreshSession`.
unfoldable pub session_eq : RefreshSession → RefreshSession → Bool
session_eq s t =
    text_eq s.subject_id t.subject_id
    && text_eq s.session_id t.session_id
    && int_eq s.issued_at_unix_secs t.issued_at_unix_secs
    && s.session_version == t.session_version

pub record Entry : Type 0 where
  pub session : RefreshSession
  pub expires_at : ℕ

-- The steps under the lock, on the map of entries.
abbrev pub Entries : Type 0
Entries = List (Text × Entry)

unfoldable pub locked_get : Entries → ℕ → Text → Entries × Option RefreshSession
locked_get entries now key = elim (get key entries) [
  | none ↦ (entries, none)
  | some entry ↦
      if leb entry.expires_at now then (remove key entries, none) else (entries, some entry.session)
]

-- The end of `rotate`, once the old entry is live and the new key is free.
unfoldable pub finish_rotate :
    Entries → Entry → ℕ → Text → Text → RefreshSession → RefreshSession → Entries × Bool
finish_rotate entries old_entry expires_at old_key new_key current_session new_session =
    if session_eq old_entry.session current_session
    then (
      insert new_key (record { session = new_session; expires_at = expires_at })
          (remove old_key entries),
      true,
    )
    else (entries, false)

unfoldable pub locked_rotate :
    Entries → ℕ → ℕ → Text → Text → RefreshSession → RefreshSession → Entries × Bool
locked_rotate entries now expires_at old_key new_key current_session new_session =
    elim (get old_key entries) [
      | none ↦ (entries, false)
      | some old_entry ↦
          if leb old_entry.expires_at now
          then (remove old_key entries, false)
          else elim (get new_key entries) [
            | none ↦
                finish_rotate entries old_entry expires_at old_key new_key current_session
                  new_session
            | some new_entry ↦
                if ltb now new_entry.expires_at
                then (entries, false)
                else finish_rotate (remove new_key entries) old_entry expires_at old_key new_key
                    current_session new_session
          ]
    ]

pub record InMemoryRefreshStore : Type 0 where
  pub namespace : Option RefreshNamespace
  pub config : RefreshStoreConfig
  pub poisoned : Option Text
  pub entries : Entries

unfoldable pub new : InMemoryRefreshStore
new = record { namespace = none; config = default_config; poisoned = none; entries = [] }

unfoldable pub with_namespace : RefreshNamespace → InMemoryRefreshStore
with_namespace namespace = record {
  namespace = some namespace;
  config = default_config;
  poisoned = none;
  entries = [];
}

unfoldable pub with_config : InMemoryRefreshStore → RefreshStoreConfig → InMemoryRefreshStore
with_config store config = record store { config = config }

abbrev pub Outcome : Type 0 → Type 0
Outcome A = InMemoryRefreshStore × Result RefreshStoreError A

-- Take the lock, run a step on the entries, and keep what it leaves.
unfoldable pub with_lock : {A : Type 0} → InMemoryRefreshStore → (Entries → Entries × A) → Outcome A
with_lock store step = elim store.poisoned [
  | some error ↦ (store, err (backend error))
  | none ↦ let (entries, a) = step store.entries in (record store { entries = entries }, ok a)
]

-- `?` on what comes before the lock.
unfoldable pub with_key :
    {A : Type 0}
    → InMemoryRefreshStore
    → Result RefreshStoreError Text
    → (Text → Outcome A)
    → Outcome A
with_key store key body = elim key [ err e ↦ (store, err e) | ok key ↦ body key ]

module _ (sha256 : List ℕ → List ℕ) where
  unfoldable pub hash_refresh_token : Text → Result RefreshStoreError Text
  hash_refresh_token token = do token ← validate_token token; ok (hex_lower (sha256 token))

  unfoldable pub store_key :
      RefreshStoreConfig → Option RefreshNamespace → Text → Result RefreshStoreError Text
  store_key config namespace token = do
    token_hash ← hash_refresh_token token
    let tail = config.key_prefix ++ (codes ":" ++ (config.key_version ++ (codes ":" ++ token_hash)))
    ok (elim namespace [ some namespace ↦ namespace.value ++ (codes ":" ++ tail) | none ↦ tail ])

  unfoldable pub key_for_token : InMemoryRefreshStore → Text → Result RefreshStoreError Text
  key_for_token store token = store_key store.config store.namespace token

  module _ (limit : ℕ) where
    unfoldable pub expiry : ℕ → ℕ → ℕ
    expiry now ttl = instant_saturating_add limit now (ttl_duration ttl)

    unfoldable pub set_session :
        InMemoryRefreshStore → ℕ → Text → RefreshSession → ℕ → Outcome (Unit {0})
    set_session store now token session ttl = with_key store (key_for_token store token) λ key.
        with_lock store λ entries.
          (insert key (record { session = session; expires_at = expiry now ttl }) entries, tt)

    unfoldable pub get_session : InMemoryRefreshStore → ℕ → Text → Outcome (Option RefreshSession)
    get_session store now token =
        with_key store (key_for_token store token)
          λ key. with_lock store λ entries. locked_get entries now key

    unfoldable pub rotate :
        InMemoryRefreshStore → ℕ → Text → Text → RefreshSession → RefreshSession → ℕ → Outcome Bool
    rotate store now old_token new_token current_session new_session ttl =
        with_key store (key_for_token store old_token) λ old_key.
          with_key store (key_for_token store new_token) λ new_key.
            if text_eq old_key new_key
            then (store, ok false)
            else with_lock store λ entries.
              locked_rotate entries now (expiry now ttl) old_key new_key current_session new_session

    unfoldable pub delete : InMemoryRefreshStore → Text → Outcome (Unit {0})
    delete store token =
        with_key store (key_for_token store token)
          λ key. with_lock store λ entries. (remove key entries, tt)
