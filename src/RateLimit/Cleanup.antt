-- ===== src/RateLimit/Cleanup.antt =====
-- What a cleanup removes is not missed.
use world_infra.Prelude.{ℕ, ◌≤◌, ◌<◌, ◌≡◌, refl, Option, none, some, arith, ltb}
use world_infra.Text.{Text}
use world_infra.Map.{get, Distinct, keep_if}
use world_infra.Map.Laws.{get-retain}
use world_infra.RateLimit.{
  Bucket, Buckets, bucket_key, u128_max, saturating_add, current_bucket, locked_check,
  locked_cleanup,
}
use world_infra.RateLimit.Window.{start_of}

-- The key's bucket, if it has one, was made for windows of this length.
abbrev pub IsOfWindow : ℕ → Option Bucket → Type 0
IsOfWindow window none = Unit
IsOfWindow window (some bucket) = bucket.window_end ≡ saturating_add bucket.window_start window

current_bucket-cleanup :
    (o : Option Bucket) (window cutoff now : ℕ)
    → 0 < window
    → IsOfWindow window o
    → cutoff ≤ now
    → now < u128_max
    → let start = start_of window now in
      let ending = saturating_add start window in
      current_bucket (keep_if (λ bucket. ltb cutoff bucket.window_end) o) start ending
      ≡ current_bucket o start ending
unfolding current_bucket saturating_add
current_bucket-cleanup none window cutoff now p h l m = refl
current_bucket-cleanup (some b) window cutoff now p h l m = ground arith

-- A cleanup whose cutoff is not later than a check does not change what the check answers, if the
-- key's bucket was made for a window of the positive length of the check, the keys of the buckets
-- are distinct, and the time lies before the end of u128.
pub locked_check-locked_cleanup :
    (buckets : Buckets) (key : Text × Text) (count window cutoff now : ℕ)
    → 0 < window
    → Distinct buckets
    → IsOfWindow window (get key buckets)
    → cutoff ≤ now
    → now < u128_max
    → (locked_check (locked_cleanup buckets cutoff) key count window now).1
      ≡ (locked_check buckets key count window now).1
unfolding locked_check locked_cleanup
locked_check-locked_cleanup buckets key count window cutoff now p d h l m = rw (
  get-retain (λ bucket. ltb cutoff bucket.window_end) key buckets d,
  current_bucket-cleanup (get key buckets) window cutoff now p h l m,
)
