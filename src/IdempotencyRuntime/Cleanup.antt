-- ===== src/IdempotencyRuntime/Cleanup.antt =====
-- The store's well-formedness, and what its lazy cleanup amounts to.
use world_infra.Prelude.{
  ℕ, ◌≤◌, ◌<◌, ◌≡◌, refl, subst, ltb→lt, Option, none, some, List, [], ◌∷◌, arith, ltb, inl, inr,
  Bool-cases, min, is_some_and, Option-cases,
}
use world_infra.Text.{Text}
use world_infra.Map.{insert, remove, retain, Distinct, AllValues, text_key}
use world_infra.Map.Laws.{retain-Distinct, insert-Distinct, remove-Distinct, remove-AllValues}
use world_infra.IdempotencyRuntime.{
  Entry, EntryState, InMemoryState, is_live, min_expiry, maybe_cleanup, earliest, put_entry,
  locked_delete,
}

-- No entry runs out before the time at which the next cleanup is due.
abbrev pub Covers : Option ℕ → List (Text × Entry) → Type 0
Covers none entries = entries ≡ []
Covers (some t) entries = AllValues (λ entry. t ≤ entry.expires_at) entries

pub record IsValid (s : InMemoryState) : Type 0 where
  pub distinct : Distinct s.entries
  pub covered : Covers s.next_cleanup_at s.entries

AllValues-mono :
    (t u : ℕ) (es : List (Text × Entry))
    → u ≤ t
    → AllValues (λ entry. t ≤ entry.expires_at) es
    → AllValues (λ entry. u ≤ entry.expires_at) es
AllValues-mono t u [] h a = tt
AllValues-mono t u ((_, e) ∷ es) h a = (omega arith, AllValues-mono t u es h a.1)

Covers-earliest :
    (o : Option ℕ) (k : Text) (e : Entry) (es : List (Text × Entry))
    → Covers o es
    → Covers (earliest o e.expires_at) ((k, e) ∷ es)
Covers-earliest none k e es h = (omega arith, rw h tt)
Covers-earliest (some t) k e es h =
    (omega arith, AllValues-mono t (min t e.expires_at) es (omega arith) h)

min_expiry-Covers : (es : List (Text × Entry)) → Covers (min_expiry es) es
unfolding min_expiry
min_expiry-Covers [] = refl
min_expiry-Covers ((k, e) ∷ es) = Covers-earliest (min_expiry es) k e es (min_expiry-Covers es)

remove-Covers :
    (o : Option ℕ) (k : Text) (es : List (Text × Entry)) → Covers o es → Covers o (remove k es)
unfolding remove
remove-Covers none k es h = rw h refl
remove-Covers (some t) k es h = remove-AllValues (λ e. t ≤ e.expires_at) k es h

AllValues-live :
    (now t : ℕ) (es : List (Text × Entry))
    → now < t
    → AllValues (λ entry. t ≤ entry.expires_at) es
    → retain (is_live now) es ≡ es
unfolding retain
AllValues-live now t [] l h = refl
AllValues-live now t ((k, e) ∷ es) l h = ground (arith, AllValues-live now t es l h.1)

-- In a valid state, skipping the cleanup while `next_cleanup_at` lies ahead loses nothing: the
-- entries are those that a cleanup at every call would leave.
pub maybe_cleanup-retain :
    (s : InMemoryState) (now : ℕ)
    → IsValid s
    → (maybe_cleanup s now).entries ≡ retain (is_live now) s.entries
unfolding maybe_cleanup
maybe_cleanup-retain s now v = elim (Option-cases s.next_cleanup_at) [
  | inl never ↦ ground arith
  | inr (t, next) ↦ elim (Bool-cases (ltb now t)) [
    | inl early ↦ ground (
      arith,
      AllValues-live now t s.entries (ltb→lt now t early)
          (subst (λ o. Covers o s.entries) next v.covered),
    )
    | inr due ↦ ground arith
  ]
]

pub maybe_cleanup-IsValid :
    (s : InMemoryState) (now : ℕ) → IsValid s → IsValid (maybe_cleanup s now)
unfolding maybe_cleanup
maybe_cleanup-IsValid s now v =
    elim (Bool-cases (is_some_and s.next_cleanup_at (λ next. ltb now next))) [
      | inl early ↦ rw (early, maybe_cleanup) v
      | inr due ↦
          rw (due, maybe_cleanup)
            (record {
              distinct = retain-Distinct (is_live now) s.entries v.distinct;
              covered = min_expiry-Covers (retain (is_live now) s.entries);
            })
    ]

pub put_entry-IsValid :
    (s : InMemoryState) (key : Text) (state : EntryState) (t : ℕ)
    → IsValid s
    → IsValid (put_entry s key state t)
unfolding put_entry insert
put_entry-IsValid s key state t v = record {
  distinct = insert-Distinct key entry s.entries v.distinct;
  covered =
      Covers-earliest s.next_cleanup_at key entry (remove key s.entries)
        (remove-Covers s.next_cleanup_at key s.entries v.covered);
}
  where
    entry : Entry
    entry = record { state = state; expires_at = t }

pub locked_delete-IsValid :
    (s : InMemoryState) (key : Text) → IsValid s → IsValid (locked_delete s key)
unfolding locked_delete
locked_delete-IsValid s key v = record {
  distinct = remove-Distinct key s.entries v.distinct;
  covered = remove-Covers s.next_cleanup_at key s.entries v.covered;
}
