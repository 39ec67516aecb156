-- ===== src/IdempotencyRuntime/Spec/Refinement.antt =====
-- The in-memory store keeps the contract.
use world_infra.Prelude.{
  ℕ, ◌≤◌, ◌≡◌, refl, sym, true, false, Option, none, some, List, [], ◌∷◌, arith, subst, is_some,
}
use world_infra.Text.{Text}
use world_infra.Map.{get, keep_if, text_key}
use world_infra.IdempotencyRuntime.{
  Entry, EntryState, marker, InMemoryState, new, fresh, is_live, claim_of, maybe_cleanup, put_entry,
  locked_set_once, locked_claim_pending, locked_mark_completed, locked_exists,
}
use world_infra.IdempotencyRuntime.Cleanup.{
  IsValid, maybe_cleanup-IsValid, put_entry-IsValid, locked_delete-IsValid,
}
use world_infra.IdempotencyRuntime.Spec.{
  Op, sets_once, claims, completes, deletes, checks, Answer, flag, claim, Call, flagged, claimed,
  locked_step_of, locked_step, locked_run, Claims, update, entry_of, spec_step_of, spec_step,
  spec_run, live, Agrees, Refines, InOrder,
}
use world_infra.IdempotencyRuntime.Spec.Live.{
  put_entry-Agrees, maybe_cleanup-Agrees, locked_delete-Agrees,
}

-- The steps in terms of what is live after the cleanup.
locked_set_once_lem :
    (s : InMemoryState) (now t : ℕ) (key : Text)
    → let s' = maybe_cleanup s now in
      flagged (locked_set_once s now t key) ≡ elim (live s' now key) [
        | none ↦ (put_entry s' key marker t, flag true)
        | some _ ↦ (s', flag false)
      ]
unfolding locked_set_once
locked_set_once_lem s now t key = ground arith

locked_claim_pending_lem :
    (s : InMemoryState) (now t : ℕ) (key : Text)
    → let s' = maybe_cleanup s now in
      claimed (locked_claim_pending s now t key) ≡ elim (live s' now key) [
        | none ↦ (put_entry s' key EntryState.pending t, claim fresh)
        | some entry ↦ (s', claim (claim_of entry.state))
      ]
unfolding locked_claim_pending
locked_claim_pending_lem s now t key = ground arith

locked_exists_lem :
    (s : InMemoryState) (now : ℕ) (key : Text)
    → let s' = maybe_cleanup s now in
      flagged (locked_exists s now key) ≡ (s', flag (is_some (live s' now key)))
unfolding locked_exists
locked_exists_lem s now key = ground arith

-- The two branch on what is live: where nothing is, both write.
write-Refines :
    (o o' : Option Entry) (s : InMemoryState) (m : Claims) (key : Text) (state : EntryState)
    (now t : ℕ) (written : Answer) (held : Entry → Answer)
    → o ≡ o'
    → Agrees s m now
    → Refines
        (elim o [ none ↦ (put_entry s key state t, written) | some e ↦ (s, held e) ])
        (elim o' [
          | none ↦ (update m key (some (entry_of state t)), written)
          | some e ↦ (m, held e)
        ])
        now
write-Refines none none s m key state now t f g e h = (refl, put_entry-Agrees s m key state t now h)
write-Refines (some x) (some y) s m key state now t f g e h = (cc, h)
write-Refines none (some y) s m key state now t f g e h = cc
write-Refines (some x) none s m key state now t f g e h = cc

Refines-of_eq :
    {x y : InMemoryState × Answer} (z : Claims × Answer) (now : ℕ)
    → x ≡ y
    → Refines y z now
    → Refines x z now
Refines-of_eq z now e r = subst (λ w. Refines w z now) (sym e) r

Agrees-mono :
    (s : InMemoryState) (m : Claims) (since now : ℕ)
    → since ≤ now
    → Agrees s m since
    → Agrees s m now
Agrees-mono s m since now l h t k l' = h t k (omega arith)

module _ (s : InMemoryState) (m : Claims) (since now : ℕ) (v : IsValid s) (h : Agrees s m since)
    (l : since ≤ now) (key : Text) (t : ℕ) where
  cleaned : Agrees (maybe_cleanup s now) m now
  cleaned = maybe_cleanup-Agrees s m since now v h l

  shown : live (maybe_cleanup s now) now key ≡ keep_if (is_live now) (m key)
  shown = cleaned now key (omega arith)

  locked_step_of-Refines :
      (op : Op) → Refines (locked_step_of op s key now t) (spec_step_of op m key now t) now
  unfolding locked_step_of spec_step_of
  locked_step_of-Refines sets_once = Refines-of_eq _ now (locked_set_once_lem s now t key) (
      write-Refines _ _ (maybe_cleanup s now) m key marker now t (flag true) (λ _. flag false) shown
        cleaned)
  locked_step_of-Refines claims = Refines-of_eq _ now (locked_claim_pending_lem s now t key) (
      write-Refines _ _ (maybe_cleanup s now) m key EntryState.pending now t (claim fresh)
        (λ e. claim (claim_of e.state)) shown cleaned)
  locked_step_of-Refines completes =
      unfold locked_mark_completed in
      (refl, put_entry-Agrees s m key EntryState.completed t now (Agrees-mono s m since now l h))
  locked_step_of-Refines deletes =
      (refl, locked_delete-Agrees s m key now (Agrees-mono s m since now l h))
  locked_step_of-Refines checks =
      Refines-of_eq _ now (locked_exists_lem s now key) (cc shown, cleaned)

pub locked_step_of-IsValid :
    (op : Op) (s : InMemoryState) (key : Text) (now t : ℕ)
    → IsValid s
    → IsValid (locked_step_of op s key now t).0
unfolding locked_step_of locked_set_once locked_claim_pending locked_mark_completed locked_exists
locked_step_of-IsValid sets_once s key now t v =
    let c = maybe_cleanup-IsValid s now v in
    ground (arith, c, put_entry-IsValid (maybe_cleanup s now) key marker t c)
locked_step_of-IsValid claims s key now t v =
    let c = maybe_cleanup-IsValid s now v in
    ground (arith, c, put_entry-IsValid (maybe_cleanup s now) key EntryState.pending t c)
locked_step_of-IsValid completes s key now t v = put_entry-IsValid s key EntryState.completed t v
locked_step_of-IsValid deletes s key now t v = locked_delete-IsValid s key v
locked_step_of-IsValid checks s key now t v = maybe_cleanup-IsValid s now v

-- Every step on a valid state keeps the keys distinct and the next cleanup no later than the first
-- expiry.
pub locked_step-IsValid : (s : InMemoryState) (c : Call) → IsValid s → IsValid (locked_step s c).0
unfolding locked_step
locked_step-IsValid s c v = locked_step_of-IsValid c.op s c.key c.now c.expires_at v

-- One locked step answers as the contract does, and they go on agreeing.
pub locked_step-Refines :
    (s : InMemoryState) (m : Claims) (since : ℕ) (c : Call)
    → IsValid s
    → Agrees s m since
    → since ≤ c.now
    → Refines (locked_step s c) (spec_step m c) c.now
unfolding locked_step spec_step
locked_step-Refines s m since c v h l =
    locked_step_of-Refines s m since c.now v h l c.key c.expires_at c.op

locked_run_refines_from :
    (s : InMemoryState) (m : Claims) (since : ℕ) (cs : List Call)
    → IsValid s
    → Agrees s m since
    → InOrder since cs
    → (locked_run s cs).1 ≡ (spec_run m cs).1
unfolding locked_run spec_run
locked_run_refines_from s m since [] v h o = refl
locked_run_refines_from s m since (c ∷ cs) v h o =
    let (same, agrees) = locked_step-Refines s m since c v h o.0 in
    cc (
      same,
      locked_run_refines_from (locked_step s c).0 (spec_step m c).0 c.now cs
          (locked_step-IsValid s c v) agrees o.1,
    )

empty-IsValid : IsValid new.state
unfolding new
empty-IsValid = record { distinct = tt; covered = refl }

-- For calls whose times do not fall, the answers of a store that starts empty are those of the
-- contract: neither the cleanup nor its schedule can be seen.
pub locked_run_refines :
    (cs : List Call) → InOrder 0 cs → (locked_run new.state cs).1 ≡ (spec_run (λ k. none) cs).1
locked_run_refines cs o =
    locked_run_refines_from new.state (λ k. none) 0 cs empty-IsValid
      (unfold new get in (λ t k l. refl)) o
