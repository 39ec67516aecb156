-- ===== src/RateLimit/Backend.antt =====
-- What the in-process backend answers, on every branch.
use world_infra.Prelude.{
  ◌≡◌, ◌≢◌, ◌⊎◌, inl, inr, refl, none, some, Result, ok, err, arith, Option-cases,
}
use world_infra.Prelude.Int.{ℤ}
use world_infra.Text.{Text}
use world_infra.RateLimit.{
  LimitSpec, fixed, unlimited, RateLimitError, zero_window, backend, bucket_key,
  InProcessFixedWindow, RateLimitDecision, unlimited_decision, with_lock, check, locked_check,
  window_millis, unix_millis,
}

-- What `check` may answer and leave behind, by the limit.
pub IsAnswered :
    InProcessFixedWindow
    → Text
    → Text
    → LimitSpec
    → ℤ
    → InProcessFixedWindow × Result RateLimitError RateLimitDecision
    → Type 0
IsAnswered s namespace key unlimited now (after, answer) =
    (after ≡ s) × (answer ≡ ok unlimited_decision)
IsAnswered s namespace key (fixed count window) now (after, answer) =
    ((window ≡ 0) × (after ≡ s) × (answer ≡ err zero_window))
    ⊎ ((error : Text) × (window ≢ 0)
        × (s.poisoned ≡ some error)
        × (after ≡ s)
        × (answer ≡ err (backend error)))
    ⊎ ((window ≢ 0)
        × (s.poisoned ≡ none)
        × (let checked =
              locked_check s.buckets (namespace, key) count (window_millis window)
                (unix_millis now) in
            (after ≡ record s { buckets = checked.0 }) × (answer ≡ ok checked.1)))

-- A check is refused exactly for a window of no length and for a poisoned lock, and then it changes
-- nothing; an unlimited check never touches the buckets; every other check is counted.
pub check-IsAnswered :
    (s : InProcessFixedWindow) (namespace key : Text) (limit : LimitSpec) (now : ℤ)
    → IsAnswered s namespace key limit now (check s namespace key limit now)
unfolding check with_lock IsAnswered
check-IsAnswered s namespace key unlimited now = (refl, refl)
check-IsAnswered s namespace key (fixed count window) now = elim (Option-cases s.poisoned) [
  | inl sound ↦ ground (arith, sound)
  | inr (error, broken) ↦ ground (arith, broken)
]
