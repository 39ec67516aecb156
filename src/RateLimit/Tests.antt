-- ===== src/RateLimit/Tests.antt =====
-- Runs of the rate limiter, and its theorems at concrete inputs.
use world_infra.Prelude.{
  ◌≤◌, ◌<◌, ◌≡◌, ◌*◌, refl, true, false, none, some, List, [], ◌∷◌, arith, inl, inr, ok, err,
}
use world_infra.Prelude.Int.{pos}
use world_infra.Text.{
  Text, codes, trim, trim_start, is_control, is_whitespace, is_ascii_alphanumeric,
}
use world_infra.Map.{get, insert, remove, retain}
use world_infra.RateLimit.{
  Buckets, bucket_key, invalid_window, InProcessFixedWindow, new_fixed, new_namespace,
  validate_key_part, current_bucket, locked_check, locked_cleanup, saturating_add, unix_millis,
  duration_millis_ceil, window_millis, duration_from_millis, with_lock, check, cleanup,
  active_bucket_count, nanos_per_milli, healthy,
}
use world_infra.RateLimit.Catalog.{insert_limit, get_limit, extend, merge, from_pairs}
use world_infra.RateLimit.Window.{used, locked_check_lem}
use world_infra.RateLimit.Budget.{
  Op, checks, cleans, locked_step, locked_run, admitted, admitted-locked_run,
}
use world_infra.RateLimit.Retry.{retry_after_allowed}
use world_infra.RateLimit.Cleanup.{locked_check-locked_cleanup}

runtime : Unit {0}
unfolding new_fixed new_namespace validate_key_part current_bucket locked_check locked_cleanup
    saturating_add unix_millis duration_millis_ceil window_millis duration_from_millis with_lock
    check cleanup active_bucket_count insert_limit get_limit extend merge from_pairs locked_step
    locked_run trim trim_start is_control is_whitespace is_ascii_alphanumeric get insert remove
    retain
runtime = tt

abbrev login : Text × Text
login = (codes "login", codes "10.0.0.1")

abbrev search : Text × Text
search = (codes "search", codes "10.0.0.1")

-- Two requests per minute, the window that starts at 60 s has been used once.
abbrev one_use : Buckets
one_use = (login, record { window_start = 60_000; window_end = 120_000; count = 1 }) ∷ []

abbrev used_up : Buckets
used_up = (login, record { window_start = 60_000; window_end = 120_000; count = 2 }) ∷ []

namespace_test : new_namespace (codes " login ") ≡ ok (codes "login")
unfolding runtime
namespace_test = refl

zero_window_test : new_fixed 3 0 ≡ err invalid_window
unfolding runtime
zero_window_test = refl

rejected_test :
    (locked_check used_up login 2 60_000 90_000).1
    ≡ record { allowed = false; remaining = 0; retry_after = some 30_000_000_000; health = healthy }
unfolding runtime
rejected_test = refl

locked_check_lem_example :
    let (after, decision) = locked_check one_use login 1 60_000 90_000 in
    (decision.allowed ≡ false)
    × (decision.remaining ≡ 0)
    × (decision.retry_after ≡ some 30_000_000_000)
    × (used after login 60_000 ≡ 2)
unfolding runtime
locked_check_lem_example =
    locked_check_lem one_use login 1 60_000 90_000 (omega arith) (omega arith) (omega arith)

abbrev history : List Op
history =
    checks login 2 60_000 70_000
    ∷ checks search 1 1_000 70_000
    ∷ cleans 119_999
    ∷ checks login 2 60_000 119_999
    ∷ []

admitted-locked_run_example : admitted login (locked_run one_use history).1 ≡ 1
unfolding runtime
admitted-locked_run_example =
    admitted-locked_run login 2 60_000 60_000 one_use history (omega arith)
      (record { distinct = (refl, tt); settled = inr refl })
      (inr (refl, refl, refl, refl), (inl refl, (omega arith, (inr (refl, refl, refl, refl), tt))))

retry_after_allowed_example :
    (0 < 30_000_000_000)
    × (30_000_000_000 ≤ 60_000 * nanos_per_milli)
    × ((locked_check
          (locked_check used_up login 2 60_000 90_000).0
          login
          2
          60_000
          (unix_millis (pos 120_000_000_000))).1.allowed
        ≡ true)
unfolding runtime
retry_after_allowed_example =
    retry_after_allowed used_up login 2 60_000 90_000_000_000 120_000_000_000 30_000_000_000
      (omega arith) (omega arith) (omega arith) (omega arith) refl (omega arith)

locked_check-locked_cleanup_example :
    (locked_check (locked_cleanup used_up 120_000) login 2 60_000 120_000).1
    ≡ (locked_check used_up login 2 60_000 120_000).1
unfolding runtime
locked_check-locked_cleanup_example =
    locked_check-locked_cleanup used_up login 2 60_000 120_000 120_000 (omega arith) (refl, tt) refl
      (omega arith) (omega arith)

abbrev limiter : InProcessFixedWindow
limiter = record { buckets = one_use; poisoned = none }

cleanup_test : (cleanup limiter (pos 180_000_000_000) 60_000_000_000).1 ≡ ok 1
unfolding runtime
cleanup_test = refl
