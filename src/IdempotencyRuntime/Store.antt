-- ===== src/IdempotencyRuntime/Store.antt =====
-- The methods of the store: their error paths, and exclusion between two callers.
use world_infra.Prelude.{
  ℕ, ◌<◌, ◌≡◌, refl, sym, subst, ◌∙◌, ap, ◌⊎◌, inl, inr, none, some, [], arith, ok, err,
  Result-cases, Option-cases,
}
use world_infra.Text.{Text}
use world_infra.IdempotencyRuntime.Keys.{backend, namespaced_key}
use world_infra.IdempotencyRuntime.{
  InMemoryState, InMemoryIdempotencyStore, WorkClaim, fresh, Outcome, with_key, expiry, set_once,
  claim_pending, mark_completed, delete, exists, locked_claim_pending, locked_delete,
}
use world_infra.IdempotencyRuntime.Cleanup.{IsValid, locked_delete-IsValid}
use world_infra.IdempotencyRuntime.Spec.{locked_run}
use world_infra.IdempotencyRuntime.Exclusive.{claim_exclusive, claim_absent, get-locked_delete}

-- An outcome with an error has left the store as it was, and the error is that of the key or that of
-- the poisoned lock; an outcome without one had a valid key and a sound lock.
abbrev pub IsExplained : {A : Type 0} → InMemoryIdempotencyStore → Text → Outcome A → Type 0
IsExplained store key (store', err e) =
    (store' ≡ store)
    × ((namespaced_key store.namespace key store.key_format ≡ err e)
        ⊎ ((text : Text) × (store.poisoned ≡ some text) × (e ≡ backend text)))
IsExplained store key (store', ok a) =
    ((resolved : Text) × (namespaced_key store.namespace key store.key_format ≡ ok resolved))
    × (store.poisoned ≡ none)

-- With a valid key and a sound lock every step is taken.
with_key-ok :
    {A : Type 0} (store : InMemoryIdempotencyStore) (key resolved : Text)
    (step : Text → InMemoryState → InMemoryState × A)
    → namespaced_key store.namespace key store.key_format ≡ ok resolved
    → store.poisoned ≡ none
    → with_key store key step
      ≡ (record store { state = (step resolved store.state).0 }, ok (step resolved store.state).1)
unfolding with_key
with_key-ok store key resolved step h l = ground (arith, h, l)

with_key-IsExplained :
    {A : Type 0} (store : InMemoryIdempotencyStore) (key : Text)
    (step : Text → InMemoryState → InMemoryState × A)
    → IsExplained store key (with_key store key step)
unfolding with_key
with_key-IsExplained store key step =
    elim (Result-cases (namespaced_key store.namespace key store.key_format)) [
      | inl (r, e) ↦ elim (Option-cases store.poisoned) [
        | inl sound ↦
            subst (IsExplained store key) (sym (with_key-ok store key r step e sound))
              ((r, e), sound)
        | inr (t, broken) ↦
            subst (IsExplained store key) {x = (store, err (backend t))} (ground (arith, e, broken))
              (refl, inr (t, broken, refl))
      ]
      | inr (x, e) ↦ rw (e, with_key) (refl, inl e)
    ]

-- On every method an error leaves the store as it was, and is that of the key's validation or the
-- text of the poisoned lock; and a method that succeeds had a valid key and a sound lock.
pub methods-IsExplained :
    (limit : ℕ) (store : InMemoryIdempotencyStore) (now : ℕ) (key : Text) (ttl : ℕ)
    → IsExplained store key (set_once limit store now key ttl)
      × IsExplained store key (claim_pending limit store now key ttl)
      × IsExplained store key (mark_completed limit store now key ttl)
      × IsExplained store key (delete limit store key)
      × IsExplained store key (exists limit store now key)
unfolding set_once claim_pending mark_completed delete exists
methods-IsExplained limit store now key ttl = (
  with_key-IsExplained store key _,
  with_key-IsExplained store key _,
  with_key-IsExplained store key _,
  with_key-IsExplained store key _,
  with_key-IsExplained store key _,
)

-- A method that succeeds has resolved its key and taken its step.
with_key-eq-ok :
    {A : Type 0} (store : InMemoryIdempotencyStore) (key : Text)
    (step : Text → InMemoryState → InMemoryState × A) (a : A)
    → (with_key store key step).1 ≡ ok a
    → (resolved : Text) × (namespaced_key store.namespace key store.key_format ≡ ok resolved)
      × (store.poisoned ≡ none)
      × ((step resolved store.state).1 ≡ a)
      × ((with_key store key step).0 ≡ record store { state = (step resolved store.state).0 })
unfolding with_key
with_key-eq-ok store key step a h =
    elim (Result-cases (namespaced_key store.namespace key store.key_format)) [
      | inl (r, e) ↦ elim (Option-cases store.poisoned) [
        | inl sound ↦ (r, e, sound, ground arith, ground arith)
        | inr (t, broken) ↦ absurd (ground (arith, e, broken))
      ]
      | inr (x, e) ↦ absurd (ground (arith, e))
    ]

-- Two claims of one key on one store with a valid state: while the first, fresh, has not expired,
-- the second is told that the work is pending, also if its caller read the time earlier.
pub claim_pending_exclusive :
    (limit : ℕ) (store : InMemoryIdempotencyStore) (key : Text) (now ttl later ttl' : ℕ)
    → IsValid store.state
    → (claim_pending limit store now key ttl).1 ≡ ok fresh
    → later < expiry limit now ttl
    → (claim_pending limit (claim_pending limit store now key ttl).0 later key ttl').1
      ≡ ok WorkClaim.pending
unfolding claim_pending locked_run
claim_pending_exclusive limit store key now ttl later ttl' v h l =
    let t = expiry limit now ttl in
    let (k, valid, sound, first, after) =
      with_key-eq-ok store key (λ k s. locked_claim_pending s now t k) fresh h in
    rw after (
      ap (λ r. r.1)
        (with_key-ok (record store { state = (locked_claim_pending store.state now t k).0 }) key k
          (λ k s. locked_claim_pending s later (expiry limit later ttl') k) valid sound)
      ∙ ap ok (claim_exclusive store.state k now t [] later (expiry limit later ttl') v first tt l))

-- Deleting a key of a store with a valid state gives the work up: the next claim of the key is
-- fresh.
pub claim_pending-delete :
    (limit : ℕ) (store : InMemoryIdempotencyStore) (key : Text) (now ttl : ℕ)
    → IsValid store.state
    → (delete limit store key).1 ≡ ok tt
    → (claim_pending limit (delete limit store key).0 now key ttl).1 ≡ ok fresh
unfolding claim_pending delete
claim_pending-delete limit store key now ttl v h =
    let (k, valid, sound, _, after) =
      with_key-eq-ok store key (λ k s. (locked_delete s k, tt)) tt h in
    let t = expiry limit now ttl in
    rw after (
      ap (λ r. r.1)
        (with_key-ok (record store { state = locked_delete store.state k }) key k
          (λ k s. locked_claim_pending s now t k) valid sound)
      ∙ ap ok (
          claim_absent (locked_delete store.state k) k now t (locked_delete-IsValid store.state k v)
            (get-locked_delete store.state k)))
