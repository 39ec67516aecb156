-- ===== src/IdempotencyRuntime/Spec.antt =====
-- The contract of the claim store, and that the in-memory store keeps it: a map from keys to
-- entries that is never cleaned up, and that forgets an entry when its time has come.
pub mod Live
pub mod Refinement
use world_infra.Prelude.{
  ℕ, ◌≤◌, ◌<◌, ◌≡◌, refl, sym, ◌∙◌, Bool, true, false, Option, none, some, List, [], ◌∷◌, arith,
  ltb, if◌then◌else◌, ap, subst, is_some, Bool-cases, Option-cases, inl, inr, is_some_and,
}
use world_infra.Text.{Text, text_eq}
use world_infra.Map.{get, insert, remove, retain, Distinct, keep_if, text_key}
use world_infra.Map.Laws.{get-retain, get-insert, get-remove}
use world_infra.IdempotencyRuntime.{
  Entry, EntryState, marker, InMemoryState, WorkClaim, fresh, is_live, claim_of, maybe_cleanup,
  put_entry, locked_set_once, locked_claim_pending, locked_mark_completed, locked_delete,
  locked_exists,
}
use world_infra.IdempotencyRuntime.Cleanup.{
  IsValid, maybe_cleanup-retain, maybe_cleanup-IsValid, put_entry-IsValid, locked_delete-IsValid,
}

-- What a caller asks for, and the answer.
pub data Op : Type 0 where
  sets_once claims completes deletes checks : Op

pub data Answer : Type 0 where
  flag : Bool → Answer
  claim : WorkClaim → Answer
  done : Answer

-- A call as it reaches the lock: its resolved key, the time that it has read, and the time at which
-- what it writes is to expire.
pub record Call : Type 0 where
  pub op : Op
  pub key : Text
  pub now : ℕ
  pub expires_at : ℕ

abbrev pub flagged : InMemoryState × Bool → InMemoryState × Answer
flagged (s, b) = (s, flag b)

abbrev pub claimed : InMemoryState × WorkClaim → InMemoryState × Answer
claimed (s, c) = (s, claim c)

unfoldable pub locked_step_of : Op → InMemoryState → Text → ℕ → ℕ → InMemoryState × Answer
locked_step_of sets_once s key now t = flagged (locked_set_once s now t key)
locked_step_of claims s key now t = claimed (locked_claim_pending s now t key)
locked_step_of completes s key now t = (locked_mark_completed s t key, done)
locked_step_of deletes s key now t = (locked_delete s key, done)
locked_step_of checks s key now t = flagged (locked_exists s now key)

unfoldable pub locked_step : InMemoryState → Call → InMemoryState × Answer
unfolding locked_step_of
locked_step s c = locked_step_of c.op s c.key c.now c.expires_at

unfoldable pub locked_run : InMemoryState → List Call → InMemoryState × List Answer
locked_run s [] = (s, [])
locked_run s (c ∷ cs) =
    let (s', a) = locked_step s c in let (s'', rest) = locked_run s' cs in (s'', a ∷ rest)

-- The contract.
abbrev pub Claims : Type 0
Claims = Text → Option Entry

abbrev pub update : Claims → Text → Option Entry → Claims
update m key o j = if text_eq key j then o else m j

abbrev pub entry_of : EntryState → ℕ → Entry
entry_of state t = record { state = state; expires_at = t }

spec_step_of : Op → Claims → Text → ℕ → ℕ → Claims × Answer
spec_step_of sets_once m key now t = elim (keep_if (is_live now) (m key)) [
  | none ↦ (update m key (some (entry_of marker t)), flag true)
  | some _ ↦ (m, flag false)
]
spec_step_of claims m key now t = elim (keep_if (is_live now) (m key)) [
  | none ↦ (update m key (some (entry_of EntryState.pending t)), claim fresh)
  | some entry ↦ (m, claim (claim_of entry.state))
]
spec_step_of completes m key now t = (update m key (some (entry_of EntryState.completed t)), done)
spec_step_of deletes m key now t = (update m key none, done)
spec_step_of checks m key now t = (m, flag (is_some (keep_if (is_live now) (m key))))

unfoldable pub spec_step : Claims → Call → Claims × Answer
unfolding spec_step_of
spec_step m c = spec_step_of c.op m c.key c.now c.expires_at

unfoldable pub spec_run : Claims → List Call → Claims × List Answer
spec_run m [] = (m, [])
spec_run m (c ∷ cs) =
    let (m', a) = spec_step m c in let (m'', rest) = spec_run m' cs in (m'', a ∷ rest)

-- What a caller sees of a key at time `t`.
abbrev pub live : InMemoryState → ℕ → Text → Option Entry
live s t k = keep_if (is_live t) (get k s.entries)

-- From time `since` on, the store and the contract show the same.
abbrev pub Agrees : InMemoryState → Claims → ℕ → Type 0
Agrees s m since = (t : ℕ) (k : Text) → since ≤ t → live s t k ≡ keep_if (is_live t) (m k)

-- An outcome of the store beside one of the contract: the same answer, and agreement from `now`.
abbrev pub Refines : InMemoryState × Answer → Claims × Answer → ℕ → Type 0
Refines (s, a) (m, b) now = (a ≡ b) × Agrees s m now

-- The times of the calls do not fall, from `since` on.
abbrev pub InOrder : ℕ → List Call → Type 0
InOrder since [] = Unit
InOrder since (c ∷ cs) = (since ≤ c.now) × InOrder c.now cs
