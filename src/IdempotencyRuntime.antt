-- ===== src/IdempotencyRuntime.antt =====
-- crates/idempotency-runtime-core/src/lib.rs: the in-memory claim store. `now` is the time that a
-- call reads before it takes the lock, so calls of several threads come in the order of their locks
-- and with times in any order. What stands between `lock()` and the return is one step on
-- `InMemoryState`. A poisoned mutex answers with the text of its error. `limit` is the last
-- representable `Instant`.
pub mod Keys
pub mod KeyLaws
pub mod Cleanup
pub mod Spec
pub mod Exclusive
pub mod Store
mod Tests
use world_infra.Prelude.{
  ℕ, ◌≡◌, Bool, true, false, ◌&&◌, Option, none, some, List, [], ◌∷◌, ltb, if◌then◌else◌, min,
  Result, ok, err, ◌>>=◌, is_some_and,
}
use world_infra.Text.{Text}
use world_infra.Map.{get, insert, remove, retain, text_key}
use world_infra.Time.{instant_saturating_add, ttl_duration}
use Keys.{
  IdempotencyRuntimeError, backend, IdempotencyKeyFormat, IdempotencyNamespace, length_prefixed,
  namespaced_key,
}

pub data WorkClaim : Type 0 where
  fresh pending completed : WorkClaim

pub data EntryState : Type 0 where
  marker pending completed : EntryState

pub record Entry : Type 0 where
  pub state : EntryState
  pub expires_at : ℕ

pub record InMemoryState : Type 0 where
  pub entries : List (Text × Entry)
  pub next_cleanup_at : Option ℕ

-- `entry.expires_at > now`
abbrev pub is_live : ℕ → Entry → Bool
is_live now entry = ltb now entry.expires_at

-- The earlier of a time, if there is one, and `expires_at`.
abbrev pub earliest : Option ℕ → ℕ → Option ℕ
earliest none expires_at = some expires_at
earliest (some current) expires_at = some (min current expires_at)

-- `entries.values().map(|entry| entry.expires_at).min()`
pub min_expiry : List (Text × Entry) → Option ℕ
min_expiry [] = none
min_expiry ((_, entry) ∷ rest) = earliest (min_expiry rest) entry.expires_at

unfoldable pub maybe_cleanup : InMemoryState → ℕ → InMemoryState
unfolding min_expiry
maybe_cleanup s now =
    if is_some_and s.next_cleanup_at (λ next. ltb now next)
    then s
    else let entries = retain (is_live now) s.entries in
      record { entries = entries; next_cleanup_at = min_expiry entries }

unfoldable pub note_expiry : InMemoryState → ℕ → InMemoryState
note_expiry s expires_at = record s { next_cleanup_at = earliest s.next_cleanup_at expires_at }

-- An insertion and the `note_expiry` behind it.
pub put_entry : InMemoryState → Text → EntryState → ℕ → InMemoryState
unfolding note_expiry
put_entry s key state expires_at =
    note_expiry
      (record s {
        entries = insert key (record { state = state; expires_at = expires_at }) s.entries;
      })
      expires_at

-- The steps under the lock.
unfoldable pub locked_set_once : InMemoryState → ℕ → ℕ → Text → InMemoryState × Bool
locked_set_once s now expires_at key =
    let s = maybe_cleanup s now in
    if is_some_and (get key s.entries) (is_live now)
    then (s, false)
    else (put_entry s key marker expires_at, true)

abbrev pub claim_of : EntryState → WorkClaim
claim_of EntryState.pending = WorkClaim.pending
claim_of _ = WorkClaim.completed

unfoldable pub locked_claim_pending : InMemoryState → ℕ → ℕ → Text → InMemoryState × WorkClaim
locked_claim_pending s now expires_at key =
    let s = maybe_cleanup s now in
    let fresh_claim : InMemoryState × WorkClaim =
      (put_entry s key EntryState.pending expires_at, fresh) in
    elim (get key s.entries) [
      | some entry ↦ if is_live now entry then (s, claim_of entry.state) else fresh_claim
      | none ↦ fresh_claim
    ]

unfoldable pub locked_mark_completed : InMemoryState → ℕ → Text → InMemoryState
locked_mark_completed s expires_at key = put_entry s key EntryState.completed expires_at

unfoldable pub locked_delete : InMemoryState → Text → InMemoryState
locked_delete s key = record s { entries = remove key s.entries }

unfoldable pub locked_exists : InMemoryState → ℕ → Text → InMemoryState × Bool
locked_exists s now key =
    let s = maybe_cleanup s now in (s, is_some_and (get key s.entries) (is_live now))

pub record InMemoryIdempotencyStore : Type 0 where
  pub namespace : Option IdempotencyNamespace
  pub key_format : IdempotencyKeyFormat
  pub poisoned : Option Text
  pub state : InMemoryState

-- `new`, `with_namespace` and `with_key_format`.
unfoldable pub new : InMemoryIdempotencyStore
new = record {
  namespace = none;
  key_format = length_prefixed;
  poisoned = none;
  state = record { entries = []; next_cleanup_at = none };
}

unfoldable pub with_namespace : IdempotencyNamespace → InMemoryIdempotencyStore
unfolding new
with_namespace namespace = record new { namespace = some namespace }

unfoldable pub with_key_format :
    InMemoryIdempotencyStore → IdempotencyKeyFormat → InMemoryIdempotencyStore
with_key_format store key_format = record store { key_format = key_format }

abbrev Outcome : Type 0 → Type 0
Outcome A = InMemoryIdempotencyStore × Result IdempotencyRuntimeError A

-- What every method does round its step: make the key, take the lock, keep the new state.
unfoldable pub with_key :
    {A : Type 0}
    → InMemoryIdempotencyStore
    → Text
    → (Text → InMemoryState → InMemoryState × A)
    → Outcome A
with_key store key step = elim (namespaced_key store.namespace key store.key_format) [
  | err e ↦ (store, err e)
  | ok key ↦ elim store.poisoned [
    | some error ↦ (store, err (backend error))
    | none ↦ let (s, a) = step key store.state in (record store { state = s }, ok a)
  ]
]

module _ (limit : ℕ) where
  unfoldable pub expiry : ℕ → ℕ → ℕ
  expiry now ttl = instant_saturating_add limit now (ttl_duration ttl)

  unfoldable pub set_once : InMemoryIdempotencyStore → ℕ → Text → ℕ → Outcome Bool
  set_once store now key ttl =
      with_key store key (λ key s. locked_set_once s now (expiry now ttl) key)

  unfoldable pub claim_pending : InMemoryIdempotencyStore → ℕ → Text → ℕ → Outcome WorkClaim
  claim_pending store now key ttl =
      with_key store key (λ key s. locked_claim_pending s now (expiry now ttl) key)

  unfoldable pub mark_completed : InMemoryIdempotencyStore → ℕ → Text → ℕ → Outcome (Unit {0})
  mark_completed store now key ttl =
      with_key store key (λ key s. (locked_mark_completed s (expiry now ttl) key, tt))

  unfoldable pub delete : InMemoryIdempotencyStore → Text → Outcome (Unit {0})
  delete store key = with_key store key (λ key s. (locked_delete s key, tt))

  unfoldable pub exists : InMemoryIdempotencyStore → ℕ → Text → Outcome Bool
  exists store now key = with_key store key (λ key s. locked_exists s now key)
