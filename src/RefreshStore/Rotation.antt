-- ===== src/RefreshStore/Rotation.antt =====
-- When a rotation takes place, and what each call of `rotate` changes.
use world_infra.Prelude.{
  ℕ, ◌≤◌, ◌<◌, ◌≡◌, refl, ◌↔◌, Bool, true, false, Option, none, some, arith, ltb, if◌then◌else◌,
  Option-cases, inl, inr,
}
use world_infra.Prelude.Int.{ℤ}
use world_infra.Text.{Text, text_eq}
use world_infra.Text.Laws.{text_eq_iff}
use world_infra.Map.{get, remove, text_key, keep_if}
use world_infra.Map.Laws.{get-insert, get-remove}
use world_infra.RefreshStore.Schema.{RefreshSession}
use world_infra.RefreshStore.{
  Entry, Entries, int_eq, session_eq, finish_rotate, locked_rotate, locked_get,
}

int_eq_iff : (a b : ℤ) → (int_eq a b ≡ true) ↔ (a ≡ b)
int_eq_iff a b = ground arith

session_eq_iff : (s t : RefreshSession) → (session_eq s t ≡ true) ↔ (s ≡ t)
unfolding session_eq
session_eq_iff s t = ground (
  arith,
  text_eq_iff s.subject_id t.subject_id,
  text_eq_iff s.session_id t.session_id,
  int_eq_iff s.issued_at_unix_secs t.issued_at_unix_secs,
)

-- What a caller sees of a key at time `t`.
abbrev pub live : Entries → ℕ → Text → Option Entry
live entries t k = keep_if (λ e. ltb t e.expires_at) (get k entries)

-- `get` hands out the session of the live entry, and what a caller sees at any later time stays.
pub locked_get_lem :
    (entries : Entries) (now : ℕ) (key : Text) (t : ℕ) (j : Text)
    → now ≤ t
    → ((locked_get entries now key).1
        ≡ elim (live entries now key) [ none ↦ none | some e ↦ some e.session ])
      × (live (locked_get entries now key).0 t j ≡ live entries t j)
unfolding locked_get
locked_get_lem entries now key t j h =
    (ground arith, ground (arith, get-remove j key entries, text_eq_iff key j))

module _ (entries : Entries) (now expires_at : ℕ) (old_key new_key : Text)
    (current new : RefreshSession) where
  -- The old token is live and stands for the session that the caller has seen; the new one is free.
  pub record MayRotate : Type 0 where
    pub old : Entry
    pub stored : get old_key entries ≡ some old
    pub unexpired : now < old.expires_at
    pub seen : old.session ≡ current
    pub free : live entries now new_key ≡ none

  locked_rotate-MayRotate :
      (locked_rotate entries now expires_at old_key new_key current new).1 ≡ true → MayRotate
  unfolding locked_rotate finish_rotate
  locked_rotate-MayRotate h = elim (Option-cases (get old_key entries)) [
    | inl missing ↦ absurd (ground (arith, missing))
    | inr (old, found) ↦ record {
      old = old;
      stored = found;
      unexpired = ground (arith, found);
      seen = (session_eq_iff old.session current).0 (ground (arith, found));
      free = ground (arith, found);
    }
  ]

  locked_rotate_of-MayRotate :
      MayRotate → (locked_rotate entries now expires_at old_key new_key current new).1 ≡ true
  unfolding locked_rotate finish_rotate
  locked_rotate_of-MayRotate m =
      ground (arith, m.stored, m.unexpired, (session_eq_iff m.old.session current).1 m.seen, m.free)

  -- `rotate` answers `true` exactly when the old token is live and stands for the session that the
  -- caller has seen, and the new token is not live.
  pub locked_rotate_iff :
      ((locked_rotate entries now expires_at old_key new_key current new).1 ≡ true) ↔ MayRotate
  locked_rotate_iff = (locked_rotate-MayRotate, locked_rotate_of-MayRotate)

  pub rotated :
      (j : Text)
      → (locked_rotate entries now expires_at old_key new_key current new).1 ≡ true
      → get j (locked_rotate entries now expires_at old_key new_key current new).0 ≡ (
          if text_eq new_key j
          then some (record { session = new; expires_at = expires_at })
          else if text_eq old_key j
          then none
          else get j entries)
  unfolding locked_rotate finish_rotate
  rotated j h = ground (
    arith,
    get-insert j new_key (record { session = new; expires_at = expires_at })
        (remove old_key entries),
    get-insert j new_key (record { session = new; expires_at = expires_at })
        (remove old_key (remove new_key entries)),
    get-remove j old_key entries,
    get-remove j old_key (remove new_key entries),
    get-remove j new_key entries,
  )

  refused :
      (t : ℕ) (j : Text)
      → now ≤ t
      → (locked_rotate entries now expires_at old_key new_key current new).1 ≡ false
      → live (locked_rotate entries now expires_at old_key new_key current new).0 t j
        ≡ live entries t j
  unfolding locked_rotate finish_rotate
  refused t j l h = ground (
    arith,
    get-remove j old_key entries,
    get-remove j new_key entries,
    text_eq_iff old_key j,
    text_eq_iff new_key j,
  )

  -- What a rotation with the answer `b` leaves of the key `j`: the new session under the new key,
  -- nothing under the old one, and all others as they were; or, without a rotation, what a caller
  -- sees at the time `t` as it was.
  abbrev pub IsEffect : Bool → Entries → ℕ → Text → Type 0
  IsEffect true after t j = get j after ≡ (
      if text_eq new_key j
      then some (record { session = new; expires_at = expires_at })
      else if text_eq old_key j
      then none
      else get j entries)
  IsEffect false after t j = live after t j ≡ live entries t j

  -- Each call of `rotate` has the effect that its answer tells, for every key and from `now` on.
  pub locked_rotate-IsEffect :
      (t : ℕ) (j : Text)
      → now ≤ t
      → let r = locked_rotate entries now expires_at old_key new_key current new in
        IsEffect r.1 r.0 t j
  locked_rotate-IsEffect t j l =
      go (locked_rotate entries now expires_at old_key new_key current new).1 refl
    where
      go :
          (b : Bool)
          → (locked_rotate entries now expires_at old_key new_key current new).1 ≡ b
          → IsEffect b (locked_rotate entries now expires_at old_key new_key current new).0 t j
      go true h = rotated j h
      go false h = refused t j l h
