-- ===== src/IdempotencyRuntime/Exclusive.antt =====
-- A claim that is held, and work that is done, stay so until they expire.
use world_infra.Prelude.{
  ℕ, ◌<◌, ◌≡◌, sym, ap, subst, Bool, true, false, none, some, List, [], ◌∷◌, arith, inl, inr, ◌⊎◌,
  Bool-cases, All, lt→ltb,
}
use world_infra.Text.{Text, text_eq}
use world_infra.Text.Laws.{text_eq_refl, text_eq→eq}
use world_infra.Map.{get, text_key}
use world_infra.Map.Laws.{get-retain, get-insert, get-remove}
use world_infra.IdempotencyRuntime.{
  Entry, EntryState, marker, InMemoryState, WorkClaim, fresh, is_live, claim_of, maybe_cleanup,
  put_entry, locked_set_once, locked_claim_pending, locked_mark_completed, locked_delete,
  locked_exists,
}
use world_infra.IdempotencyRuntime.Cleanup.{IsValid, maybe_cleanup-retain, put_entry-IsValid}
use world_infra.IdempotencyRuntime.Spec.{
  Op, sets_once, claims, completes, deletes, checks, Call, locked_step_of, locked_step, locked_run,
  entry_of,
}
use world_infra.IdempotencyRuntime.Spec.Refinement.{locked_step-IsValid, locked_step_of-IsValid}

-- The store holds the entry `e` under the key `k`.
abbrev pub Holds : InMemoryState → Text → Entry → Type 0
Holds s k e = get k s.entries ≡ some e

-- The calls that write whatever is stored.
abbrev pub overwrites : Op → Bool
overwrites completes = true
overwrites deletes = true
overwrites _ = false

abbrev pub Spares : Text → Call → Type 0
Spares k c = (text_eq c.key k ≡ false) ⊎ (overwrites c.op ≡ false)

maybe_cleanup-Holds :
    (s : InMemoryState) (now : ℕ) (k : Text) (e : Entry)
    → IsValid s
    → Holds s k e
    → now < e.expires_at
    → Holds (maybe_cleanup s now) k e
maybe_cleanup-Holds s now k e v h l =
    rw (maybe_cleanup-retain s now v)
      (ground (arith, get-retain (is_live now) k s.entries v.distinct))

put_entry-Holds :
    (s : InMemoryState) (key : Text) (state : EntryState) (t : ℕ) (k : Text) (e : Entry)
    → text_eq key k ≡ false
    → Holds s k e
    → Holds (put_entry s key state t) k e
unfolding put_entry
put_entry-Holds s key state t k e d h =
    ground (arith, get-insert k key (entry_of state t) s.entries)

put_entry-Holds_self :
    (s : InMemoryState) (key : Text) (state : EntryState) (t : ℕ)
    → Holds (put_entry s key state t) key (entry_of state t)
unfolding put_entry
put_entry-Holds_self s key state t =
    ground (arith, get-insert key key (entry_of state t) s.entries, text_eq_refl key)

-- A claim of a held key changes nothing but what the cleanup removes.
claim_held :
    (s : InMemoryState) (k : Text) (e : Entry) (now t : ℕ)
    → IsValid s
    → Holds s k e
    → now < e.expires_at
    → locked_claim_pending s now t k ≡ (maybe_cleanup s now, claim_of e.state)
unfolding locked_claim_pending
claim_held s k e now t v h l = ground (arith, maybe_cleanup-Holds s now k e v h l)

module _ (s : InMemoryState) (k : Text) (e : Entry) (v : IsValid s) (h : Holds s k e) where
  locked_step_of-Holds :
      (op : Op) (key : Text) (now t : ℕ)
      → now < e.expires_at
      → (text_eq key k ≡ false) ⊎ (overwrites op ≡ false)
      → Holds (locked_step_of op s key now t).0 k e
  unfolding locked_step_of locked_set_once locked_claim_pending locked_mark_completed locked_delete
      locked_exists
  locked_step_of-Holds sets_once key now t l d =
      let c = maybe_cleanup-Holds s now k e v h l in
      let w = put_entry-Holds (maybe_cleanup s now) key marker t k e in
      elim (Bool-cases (text_eq key k)) [
        | inl same ↦ rw (text_eq→eq key k same, c, lt→ltb now e.expires_at l) c
        | inr other ↦ ground (arith, c, w other c)
      ]
  locked_step_of-Holds claims key now t l d =
      let c = maybe_cleanup-Holds s now k e v h l in
      let w = put_entry-Holds (maybe_cleanup s now) key EntryState.pending t k e in
      elim (Bool-cases (text_eq key k)) [
        | inl same ↦
            rw (text_eq→eq key k same)
              (subst (λ r. Holds r.0 k e) (sym (claim_held s k e now t v h l)) c)
        | inr other ↦ ground (arith, c, w other c)
      ]
  locked_step_of-Holds completes key now t l (inl other) =
      put_entry-Holds s key EntryState.completed t k e other h
  locked_step_of-Holds completes key now t l (inr reads) = cc
  locked_step_of-Holds deletes key now t l (inl other) = ground (arith, get-remove k key s.entries)
  locked_step_of-Holds deletes key now t l (inr reads) = cc
  locked_step_of-Holds checks key now t l d = maybe_cleanup-Holds s now k e v h l

locked_step-Holds :
    (s : InMemoryState) (k : Text) (e : Entry) (c : Call)
    → IsValid s
    → Holds s k e
    → c.now < e.expires_at
    → Spares k c
    → Holds (locked_step s c).0 k e
unfolding locked_step
locked_step-Holds s k e c v h l d = locked_step_of-Holds s k e v h c.op c.key c.now c.expires_at l d

-- While calls that spare the key come before its entry runs out, the entry stays.
pub locked_run-Holds :
    (s : InMemoryState) (k : Text) (e : Entry) (cs : List Call)
    → IsValid s
    → Holds s k e
    → All (λ c. (c.now < e.expires_at) × Spares k c) cs
    → Holds (locked_run s cs).0 k e × IsValid (locked_run s cs).0
unfolding locked_run
locked_run-Holds s k e [] v h a = (h, v)
locked_run-Holds s k e (c ∷ cs) v h (here, rest) =
    locked_run-Holds (locked_step s c).0 k e cs (locked_step-IsValid s c v)
      (locked_step-Holds s k e c v h here.0 here.1) rest

claim-Holds :
    (s : InMemoryState) (k : Text) (e : Entry) (now t : ℕ)
    → IsValid s
    → Holds s k e
    → now < e.expires_at
    → (locked_claim_pending s now t k).1 ≡ claim_of e.state
claim-Holds s k e now t v h l = ap (λ r. r.1) (claim_held s k e now t v h l)

set_once-Holds :
    (s : InMemoryState) (k : Text) (e : Entry) (now t : ℕ)
    → IsValid s
    → Holds s k e
    → now < e.expires_at
    → (locked_set_once s now t k).1 ≡ false
unfolding locked_set_once
set_once-Holds s k e now t v h l = ground (arith, maybe_cleanup-Holds s now k e v h l)

fresh-Holds :
    (s : InMemoryState) (k : Text) (now t : ℕ)
    → (locked_claim_pending s now t k).1 ≡ fresh
    → Holds (locked_claim_pending s now t k).0 k (entry_of EntryState.pending t)
unfolding locked_claim_pending
fresh-Holds s k now t h =
    ground (arith, put_entry-Holds_self (maybe_cleanup s now) k EntryState.pending t)

-- In a valid state a fresh claim is exclusive. Until the claim expires, and whatever calls come in
-- between that neither complete nor delete its key, in any order of their times before the expiry,
-- no other claim of the key is fresh: it is told that the work is pending.
pub claim_exclusive :
    (s : InMemoryState) (k : Text) (now t : ℕ) (cs : List Call) (later t' : ℕ)
    → IsValid s
    → (locked_claim_pending s now t k).1 ≡ fresh
    → All (λ c. (c.now < t) × Spares k c) cs
    → later < t
    → (locked_claim_pending (locked_run (locked_claim_pending s now t k).0 cs).0 later t' k).1
      ≡ WorkClaim.pending
unfolding locked_step_of locked_claim_pending
claim_exclusive s k now t cs later t' v h a l =
    let (held, valid) =
      locked_run-Holds (locked_claim_pending s now t k).0 k (entry_of EntryState.pending t) cs
        (locked_step_of-IsValid claims s k now t v) (fresh-Holds s k now t h) a in
    claim-Holds _ k (entry_of EntryState.pending t) later t' valid held l

-- From a valid state, completed work stays done. Until its entry expires, and whatever calls come
-- in between before then that do not complete or delete its key again, a claim of the key answers
-- that the work is completed and a marker cannot be set.
pub completed_stays :
    (s : InMemoryState) (k : Text) (t : ℕ) (cs : List Call) (later t' : ℕ)
    → IsValid s
    → All (λ c. (c.now < t) × Spares k c) cs
    → later < t
    → let s' = (locked_run (locked_mark_completed s t k) cs).0 in
      ((locked_claim_pending s' later t' k).1 ≡ WorkClaim.completed)
      × ((locked_set_once s' later t' k).1 ≡ false)
unfolding locked_mark_completed
completed_stays s k t cs later t' v a l =
    let e = entry_of EntryState.completed t in
    let (held, valid) =
      locked_run-Holds (put_entry s k EntryState.completed t) k e cs
        (put_entry-IsValid s k EntryState.completed t v)
        (put_entry-Holds_self s k EntryState.completed t) a in
    (claim-Holds _ k e later t' valid held l, set_once-Holds _ k e later t' valid held l)

-- A claim of a key that has no entry is fresh.
pub claim_absent :
    (s : InMemoryState) (k : Text) (now t : ℕ)
    → IsValid s
    → get k s.entries ≡ none
    → (locked_claim_pending s now t k).1 ≡ fresh
unfolding locked_claim_pending
claim_absent s k now t v h =
    ground (arith, maybe_cleanup-retain s now v, get-retain (is_live now) k s.entries v.distinct, h)

pub get-locked_delete : (s : InMemoryState) (k : Text) → get k (locked_delete s k).entries ≡ none
unfolding locked_delete
get-locked_delete s k = ground (arith, get-remove k k s.entries, text_eq_refl k)
