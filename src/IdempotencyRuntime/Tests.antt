-- ===== src/IdempotencyRuntime/Tests.antt =====
-- Runs of the claim store, and its theorems at concrete inputs.
use world_infra.Prelude.{
  ℕ, ◌≡◌, refl, false, Option, none, some, List, [], ◌∷◌, ◌++◌, arith, inl, inr, ok, err, ◌^◌, ◌-◌,
}
use world_infra.Text.{Text, codes, trim, trim_start, is_control, is_whitespace}
use world_infra.Text.Decimal.{decimal}
use world_infra.Map.{get, insert, remove, retain, text_key}
use world_infra.Time.{instant_saturating_add, ttl_duration}
use world_infra.IdempotencyRuntime.Keys.{
  invalid_key, IdempotencyNamespace, length_prefixed, validate_part, new_namespace, namespaced_key,
  format_key,
}
use world_infra.IdempotencyRuntime.{
  EntryState, InMemoryState, InMemoryIdempotencyStore, WorkClaim, fresh, new, maybe_cleanup,
  note_expiry, put_entry, expiry, set_once, claim_pending, mark_completed, delete, exists, with_key,
  locked_set_once, locked_claim_pending, locked_mark_completed, locked_delete, locked_exists,
}
use world_infra.IdempotencyRuntime.Cleanup.{IsValid}
use world_infra.IdempotencyRuntime.Spec.{
  Call, claims, completes, checks, locked_step, locked_run, spec_run,
}
use world_infra.IdempotencyRuntime.Spec.Refinement.{locked_step-IsValid, locked_run_refines}
use world_infra.IdempotencyRuntime.Exclusive.{claim_exclusive, completed_stays}
use world_infra.IdempotencyRuntime.KeyLaws.{namespaced_key-injective}
use world_infra.IdempotencyRuntime.Store.{IsExplained, methods-IsExplained}

runtime : Unit {0}
unfolding claim_pending set_once mark_completed delete exists with_key expiry instant_saturating_add
    ttl_duration locked_set_once locked_claim_pending locked_mark_completed locked_delete
    locked_exists maybe_cleanup note_expiry put_entry namespaced_key validate_part format_key trim
    trim_start is_control is_whitespace decimal get insert remove retain
runtime = tt

abbrev end_of_time : ℕ
end_of_time = 2 ^ 63 - 1

abbrev second : ℕ
second = 1_000_000_000

abbrev job : Text
job = codes " job:7 "

abbrev empty_state : InMemoryState
empty_state = record { entries = []; next_cleanup_at = none }

empty-IsValid : IsValid empty_state
empty-IsValid = record { distinct = tt; covered = refl }

abbrev jobs : InMemoryIdempotencyStore
jobs = record {
  namespace = some (record { value = codes "app" });
  key_format = length_prefixed;
  poisoned = none;
  state = empty_state;
}

key_test : namespaced_key jobs.namespace job length_prefixed ≡ ok (codes "idem:3:app:5:job:7")
unfolding runtime
key_test = refl

control_test : namespaced_key none (codes "a" ++ 10 ∷ []) length_prefixed ≡ err invalid_key
unfolding runtime
control_test = refl

claim_test : (claim_pending end_of_time jobs 5 job second).1 ≡ ok fresh
unfolding runtime
claim_test = refl

methods-IsExplained_example :
    IsExplained jobs [] (set_once end_of_time jobs 3 [] 0)
    × IsExplained jobs [] (claim_pending end_of_time jobs 3 [] 0)
    × IsExplained jobs [] (mark_completed end_of_time jobs 3 [] 0)
    × IsExplained jobs [] (delete end_of_time jobs [])
    × IsExplained jobs [] (exists end_of_time jobs 3 [])
methods-IsExplained_example = methods-IsExplained end_of_time jobs 3 [] 0

-- A claim, its completion, and a claim once the completed entry has run out.
abbrev history : List Call
history =
    record { op = claims; key = codes "k"; now = 1; expires_at = 10 }
    ∷ record { op = completes; key = codes "k"; now = 4; expires_at = 20 }
    ∷ record { op = checks; key = codes "k"; now = 12; expires_at = 12 }
    ∷ record { op = claims; key = codes "k"; now = 20; expires_at = 30 }
    ∷ []

locked_run_refines_example : (locked_run new.state history).1 ≡ (spec_run (λ k. none) history).1
locked_run_refines_example = locked_run_refines history (omega arith)

abbrev other_work : List Call
other_work =
    record { op = claims; key = codes "k"; now = 7; expires_at = 40 }
    ∷ record { op = completes; key = codes "j"; now = 3; expires_at = 40 }
    ∷ []

claim_exclusive_example :
    (locked_claim_pending
      (locked_run (locked_claim_pending empty_state 1 10 (codes "k")).0 other_work).0
      9
      50
      (codes "k")).1
    ≡ WorkClaim.pending
unfolding runtime
claim_exclusive_example =
    claim_exclusive empty_state (codes "k") 1 10 other_work 9 50 empty-IsValid refl
      ((omega arith, inr refl), ((omega arith, inl refl), tt)) (omega arith)

completed_stays_example :
    let s' = (locked_run (locked_mark_completed empty_state 10 (codes "k")) other_work).0 in
    ((locked_claim_pending s' 9 50 (codes "k")).1 ≡ WorkClaim.completed)
    × ((locked_set_once s' 9 50 (codes "k")).1 ≡ false)
completed_stays_example =
    completed_stays empty_state (codes "k") 10 other_work 9 50 empty-IsValid
      ((omega arith, inr refl), ((omega arith, inl refl), tt)) (omega arith)

abbrev stale : InMemoryState
stale = record {
  entries =
      (codes "a", record { state = EntryState.pending; expires_at = 3 })
      ∷ (codes "b", record { state = EntryState.completed; expires_at = 8 })
      ∷ [];
  next_cleanup_at = some 2;
}

stale-IsValid : IsValid stale
unfolding get
stale-IsValid = record { distinct = (refl, (refl, tt)); covered = omega arith }

locked_step-IsValid_example :
    IsValid (locked_step stale (record { op = claims; key = codes "a"; now = 5; expires_at = 9 })).0
locked_step-IsValid_example =
    locked_step-IsValid stale (record { op = claims; key = codes "a"; now = 5; expires_at = 9 })
      stale-IsValid

abbrev app : Option IdempotencyNamespace
app = some (record { value = codes "app" })

namespaced_key-injective_example : (app ≡ app) × (validate_part job ≡ validate_part (codes "job:7"))
unfolding runtime new_namespace
namespaced_key-injective_example =
    namespaced_key-injective app app job (codes "job:7") (codes "idem:3:app:5:job:7")
      (codes "app", refl) (codes "app", refl) refl refl
