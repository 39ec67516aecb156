-- ===== src/RefreshStore/SingleUse.antt =====
-- A refresh token is good for one rotation, whatever the other callers do: histories of calls in the
-- order in which they take the lock.
use world_infra.Prelude.{
  ℕ, ◌+◌, ◌≤◌, ◌≡◌, refl, Bool, true, false, ◌&&◌, not, Option, none, List, [], ◌∷◌, arith,
  if◌then◌else◌, ◌⊎◌, inl, inr, All,
}
use world_infra.Text.{Text, text_eq}
use world_infra.Text.Laws.{text_eq_iff, text_eq_refl}
use world_infra.Map.{get, insert, remove, text_key}
use world_infra.Map.Laws.{get-insert, get-remove}
use world_infra.RefreshStore.Schema.{RefreshSession}
use world_infra.RefreshStore.{Entries, finish_rotate, locked_rotate, locked_get}
use world_infra.RefreshStore.Rotation.{rotated}

-- The methods on resolved keys.
pub data Op : Type 0 where
  sets : Text → RefreshSession → Op
  gets deletes : Text → Op
  rotates : Text → Text → RefreshSession → RefreshSession → Op

pub data Answer : Type 0 where
  done : Answer
  found : Option RefreshSession → Answer
  rotation : Bool → Answer

pub record Call : Type 0 where
  pub op : Op
  pub now : ℕ
  pub expires_at : ℕ

unfoldable pub locked_step_of : Op → Entries → ℕ → ℕ → Entries × Answer
locked_step_of (sets key session) entries now t =
    (insert key (record { session = session; expires_at = t }) entries, done)
locked_step_of (gets key) entries now t =
    let (after, session) = locked_get entries now key in (after, found session)
locked_step_of (deletes key) entries now t = (remove key entries, done)
locked_step_of (rotates old_key new_key current new) entries now t =
    let (after, b) = locked_rotate entries now t old_key new_key current new in
    if text_eq old_key new_key then (entries, rotation false) else (after, rotation b)

unfoldable pub locked_step : Entries → Call → Entries × Answer
locked_step entries c = locked_step_of c.op entries c.now c.expires_at

-- A history, with what was asked and answered.
unfoldable pub locked_run : Entries → List Call → Entries × List (Op × Answer)
locked_run entries [] = (entries, [])
locked_run entries (c ∷ cs) =
    let (after, a) = locked_step entries c in
    let (last, events) = locked_run after cs in (last, (c.op, a) ∷ events)

-- The calls that can put a session under the key.
abbrev pub writes : Text → Op → Bool
writes k (sets key session) = text_eq key k
writes k (gets key) = false
writes k (deletes key) = false
writes k (rotates old_key new_key current new) = text_eq new_key k && not (text_eq old_key new_key)

locked_step_of-absent :
    (k : Text) (op : Op) (entries : Entries) (now t : ℕ)
    → get k entries ≡ none
    → writes k op ≡ false
    → get k (locked_step_of op entries now t).0 ≡ none
unfolding locked_step_of locked_get locked_rotate finish_rotate
locked_step_of-absent k (sets key session) entries now t h w =
    ground (arith, get-insert k key (record { session = session; expires_at = t }) entries)
locked_step_of-absent k (gets key) entries now t h w = ground (arith, get-remove k key entries)
locked_step_of-absent k (deletes key) entries now t h w = ground (arith, get-remove k key entries)
locked_step_of-absent k (rotates old_key new_key current new) entries now t h w = ground (
  arith,
  get-insert k new_key (record { session = new; expires_at = t }) (remove old_key entries),
  get-insert k new_key (record { session = new; expires_at = t })
      (remove old_key (remove new_key entries)),
  get-remove k old_key entries,
  get-remove k old_key (remove new_key entries),
  get-remove k new_key entries,
)

-- Once a key has no entry, it has none until a session is put there.
locked_run-absent :
    (k : Text) (entries : Entries) (cs : List Call)
    → get k entries ≡ none
    → All (λ c. writes k c.op ≡ false) cs
    → get k (locked_run entries cs).0 ≡ none
unfolding locked_run locked_step
locked_run-absent k entries [] h w = h
locked_run-absent k entries (c ∷ cs) h w =
    locked_run-absent k (locked_step entries c).0 cs
      (locked_step_of-absent k c.op entries c.now c.expires_at h w.0) w.1

absent_token :
    (k : Text) (entries : Entries) (now t : ℕ) (other : Text) (current new : RefreshSession)
    → get k entries ≡ none
    → ((locked_get entries now k).1 ≡ none)
      × ((locked_rotate entries now t k other current new).1 ≡ false)
unfolding locked_get locked_rotate
absent_token k entries now t other current new h = ground (arith, h)

-- Single use. After a rotation between two different keys that has answered `true`, and any calls
-- that put no session under the old key again, the old token has no session, and every rotation of
-- it answers `false`.
pub rotate_single_use :
    (entries : Entries) (now t : ℕ) (old_key new_key : Text) (current new : RefreshSession)
    (cs : List Call) (later t' : ℕ) (other : Text) (current' new' : RefreshSession)
    → text_eq old_key new_key ≡ false
    → (locked_rotate entries now t old_key new_key current new).1 ≡ true
    → All (λ c. writes old_key c.op ≡ false) cs
    → let after = (locked_run (locked_rotate entries now t old_key new_key current new).0 cs).0 in
      ((locked_get after later old_key).1 ≡ none)
      × ((locked_rotate after later t' old_key other current' new').1 ≡ false)
rotate_single_use entries now t old_key new_key current new cs later t' other current' new' d h w =
    absent_token old_key _ later t' other current' new' (
      locked_run-absent old_key _ cs
        (ground (
          arith,
          rotated entries now t old_key new_key current new old_key h,
          text_eq_iff old_key new_key,
          text_eq_iff new_key old_key,
          text_eq_refl old_key,
        ))
        w)

-- A successful rotation of the token with the key `k`.
abbrev pub is_win : Text → Op × Answer → ℕ
is_win k (rotates old_key new_key current new, rotation true) = if text_eq old_key k then 1 else 0
is_win k _ = 0

abbrev pub wins : Text → List (Op × Answer) → ℕ
wins k [] = 0
wins k (event ∷ events) = is_win k event + wins k events

-- A win leaves the key without an entry.
step_win :
    (k : Text) (op : Op) (entries : Entries) (now t : ℕ)
    → writes k op ≡ false
    → (is_win k (op, (locked_step_of op entries now t).1) ≡ 0)
      ⊎ ((is_win k (op, (locked_step_of op entries now t).1) ≡ 1)
          × (get k (locked_step_of op entries now t).0 ≡ none))
unfolding locked_step_of
step_win k (sets key session) entries now t w = inl refl
step_win k (gets key) entries now t w = inl refl
step_win k (deletes key) entries now t w = inl refl
step_win k (rotates old_key new_key current new) entries now t w = ground (
  arith,
  rotated entries now t old_key new_key current new k,
  text_eq_iff old_key k,
  text_eq_iff new_key k,
  text_eq_iff old_key new_key,
)

absent_no_win :
    (k : Text) (op : Op) (entries : Entries) (now t : ℕ)
    → get k entries ≡ none
    → is_win k (op, (locked_step_of op entries now t).1) ≡ 0
unfolding locked_step_of locked_rotate
absent_no_win k (sets key session) entries now t h = refl
absent_no_win k (gets key) entries now t h = refl
absent_no_win k (deletes key) entries now t h = refl
absent_no_win k (rotates old_key new_key current new) entries now t h =
    ground (arith, text_eq_iff old_key k)

absent_no_wins :
    (k : Text) (entries : Entries) (cs : List Call)
    → get k entries ≡ none
    → All (λ c. writes k c.op ≡ false) cs
    → wins k (locked_run entries cs).1 ≡ 0
unfolding locked_run locked_step
absent_no_wins k entries [] h w = refl
absent_no_wins k entries (c ∷ cs) h w = omega (
  arith,
  absent_no_win k c.op entries c.now c.expires_at h,
  absent_no_wins k (locked_step entries c).0 cs
      (locked_step_of-absent k c.op entries c.now c.expires_at h w.0) w.1,
)

-- However many callers try to rotate one token, and whatever else is called in between, at most one
-- of them succeeds, as long as no call puts a session under the token again.
pub rotate_single_winner :
    (k : Text) (entries : Entries) (cs : List Call)
    → All (λ c. writes k c.op ≡ false) cs
    → wins k (locked_run entries cs).1 ≤ 1
unfolding locked_run locked_step
rotate_single_winner k entries [] w = omega arith
rotate_single_winner k entries (c ∷ cs) w = elim (step_win k c.op entries c.now c.expires_at w.0) [
  | inl lost ↦ omega (arith, lost, rotate_single_winner k (locked_step entries c).0 cs w.1)
  | inr (won, gone) ↦ omega (arith, won, absent_no_wins k (locked_step entries c).0 cs gone w.1)
]
