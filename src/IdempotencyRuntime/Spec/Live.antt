-- ===== src/IdempotencyRuntime/Spec/Live.antt =====
-- What is live after each change of the store.
use world_infra.Prelude.{ℕ, ◌≤◌, ◌≡◌, refl, ◌∙◌, Option, none, some, arith, if◌then◌else◌}
use world_infra.Text.{Text, text_eq}
use world_infra.Map.{get, keep_if, text_key}
use world_infra.Map.Laws.{get-retain, get-insert, get-remove}
use world_infra.IdempotencyRuntime.{
  Entry, EntryState, InMemoryState, is_live, maybe_cleanup, put_entry, locked_delete,
}
use world_infra.IdempotencyRuntime.Cleanup.{IsValid, maybe_cleanup-retain}
use world_infra.IdempotencyRuntime.Spec.{Claims, update, entry_of, live, Agrees}

keep_if_later :
    (now t : ℕ) (o : Option Entry)
    → now ≤ t
    → keep_if (is_live t) (keep_if (is_live now) o) ≡ keep_if (is_live t) o
keep_if_later now t none h = refl
keep_if_later now t (some e) h = ground arith

-- A cleanup is not seen from then on.
pub live-maybe_cleanup :
    (s : InMemoryState) (now t : ℕ) (k : Text)
    → IsValid s
    → now ≤ t
    → live (maybe_cleanup s now) t k ≡ live s t k
live-maybe_cleanup s now t k v h =
    rw (maybe_cleanup-retain s now v, get-retain (is_live now) k s.entries v.distinct)
      (keep_if_later now t (get k s.entries) h)

live-put_entry :
    (s : InMemoryState) (key : Text) (state : EntryState) (u t : ℕ) (k : Text)
    → live (put_entry s key state u) t k
      ≡ (if text_eq key k then keep_if (is_live t) (some (entry_of state u)) else live s t k)
unfolding put_entry
live-put_entry s key state u t k = ground (arith, get-insert k key (entry_of state u) s.entries)

live-locked_delete :
    (s : InMemoryState) (key : Text) (t : ℕ) (k : Text)
    → live (locked_delete s key) t k ≡ (if text_eq key k then none else live s t k)
unfolding locked_delete
live-locked_delete s key t k = ground (arith, get-remove k key s.entries)

-- After the cleanup under the lock, the test on the stored entry is a test of what is live.
pub put_entry-Agrees :
    (s : InMemoryState) (m : Claims) (key : Text) (state : EntryState) (u since : ℕ)
    → Agrees s m since
    → Agrees (put_entry s key state u) (update m key (some (entry_of state u))) since
put_entry-Agrees s m key state u since h t k l =
    ground (arith, live-put_entry s key state u t k, h t k l)

pub maybe_cleanup-Agrees :
    (s : InMemoryState) (m : Claims) (since now : ℕ)
    → IsValid s
    → Agrees s m since
    → since ≤ now
    → Agrees (maybe_cleanup s now) m now
maybe_cleanup-Agrees s m since now v h l t k l' =
    live-maybe_cleanup s now t k v l' ∙ h t k (omega arith)

pub locked_delete-Agrees :
    (s : InMemoryState) (m : Claims) (key : Text) (since : ℕ)
    → Agrees s m since
    → Agrees (locked_delete s key) (update m key none) since
locked_delete-Agrees s m key since h t k l = ground (arith, live-locked_delete s key t k, h t k l)
