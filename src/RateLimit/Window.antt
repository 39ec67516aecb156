-- ===== src/RateLimit/Window.antt =====
-- One check of a fixed window: what it answers, and how it changes the counts.
use world_infra.Prelude.{
  ℕ, ◌+◌, ◌-◌, ◌%◌, ◌<◌, ◌≤◌, ◌≡◌, refl, ◌⊎◌, ◌≢◌, inl, inr, false, Option, none, some, arith, ltb,
  ◌==◌, if◌then◌else◌, min, is_some, not, max, ap, ◌∙◌,
}
use world_infra.Text.{Text}
use world_infra.Map.{get, Distinct}
use world_infra.Map.Laws.{beq_refl, get-insert, insert-Distinct, retain-Distinct, get-retain}
use world_infra.RateLimit.{
  Bucket, Buckets, bucket_key, pair_eq, u32_max, u128_max, duration_from_millis, saturating_add,
  current_bucket, locked_check, locked_cleanup,
}

-- The start of the window that a time lies in.
abbrev pub start_of : ℕ → ℕ → ℕ
start_of window now = now - now % window

-- How often the window that starts at `start` has been used.
abbrev pub count_of : Option Bucket → ℕ → ℕ
count_of none start = 0
count_of (some bucket) start = if bucket.window_start == start then bucket.count else 0

abbrev pub used : Buckets → Text × Text → ℕ → ℕ
used buckets key start = count_of (get key buckets) start

-- The bucket of the window that starts at `start`, if there is one, ends at `ending`.
abbrev pub IsSettled : Option Bucket → ℕ → ℕ → Type 0
IsSettled none start ending = Unit
IsSettled (some bucket) start ending = (bucket.window_start ≢ start) ⊎ (bucket.window_end ≡ ending)

pub current_bucket_lem :
    (o : Option Bucket) (start ending : ℕ)
    → ((current_bucket o start ending).window_start ≡ start)
      × ((current_bucket o start ending).count ≡ count_of o start)
unfolding current_bucket
current_bucket_lem none start ending = (refl, refl)
current_bucket_lem (some b) start ending = ground arith

current_bucket-settled :
    (o : Option Bucket) (start ending : ℕ)
    → IsSettled o start ending
    → (current_bucket o start ending).window_end ≡ ending
unfolding current_bucket
current_bucket-settled none start ending h = refl
current_bucket-settled (some b) start ending h = ground arith

module _ (buckets : Buckets) (key : Text × Text) (count window now : ℕ) where
  abbrev pub current : Bucket
  current =
      current_bucket (get key buckets) (start_of window now)
        (saturating_add (start_of window now) window)

  pub get-locked_check :
      (j : Text × Text)
      → get j (locked_check buckets key count window now).0 ≡ (
          if pair_eq key j
          then some (record current { count = min (current.count + 1) u32_max })
          else get j buckets)
  unfolding locked_check
  get-locked_check j = get-insert j key _ buckets

  -- What a check answers and counts, with a count below u32::MAX.
  pub locked_check-counts :
      count < u32_max
      → let n = used buckets key (start_of window now) in
        let (after, decision) = locked_check buckets key count window now in
        (decision.allowed ≡ ltb n count)
        × (decision.remaining ≡ count - (n + 1))
        × (is_some decision.retry_after ≡ not decision.allowed)
        × (used after key (start_of window now) ≡ min (n + 1) u32_max)
  unfolding locked_check
  locked_check-counts h = ground (
    arith,
    current_bucket_lem (get key buckets) (start_of window now)
        (saturating_add (start_of window now) window),
    get-locked_check key,
    beq_refl key,
  )

  -- What is left of the window.
  left_of :
      0 < window
      → now + window ≤ u128_max
      → max (saturating_add (start_of window now) window - now) 1 ≡ window - now % window
  unfolding saturating_add
  left_of h k = ground arith

  retry-locked_check :
      0 < window
      → now + window ≤ u128_max
      → let decision = (locked_check buckets key count window now).1 in
        decision.retry_after
        ≡ (if decision.allowed then none else some (duration_from_millis (window - now % window)))
  unfolding locked_check
  retry-locked_check h k = rw (left_of h k) refl

  -- With a count below u32::MAX, a request is allowed exactly while the window has been used less
  -- than `count` times, the answer tells how many are left, and the use is counted. The window is not
  -- empty and its end can be represented; then a rejected request is told to retry after what is left
  -- of the window.
  pub locked_check_lem :
      count < u32_max
      → 0 < window
      → now + window ≤ u128_max
      → let n = used buckets key (start_of window now) in
        let (after, decision) = locked_check buckets key count window now in
        (decision.allowed ≡ ltb n count)
        × (decision.remaining ≡ count - (n + 1))
        × (decision.retry_after
            ≡ (if ltb n count then none else some (duration_from_millis (window - now % window))))
        × (used after key (start_of window now) ≡ min (n + 1) u32_max)
  locked_check_lem h k l =
      let (allowed, remaining, _, counted) = locked_check-counts h in
      (
        allowed,
        remaining,
        retry-locked_check k l
            ∙ ap (λ a. if a then none else some (duration_from_millis (window - now % window)))
                allowed,
        counted,
      )

  pub used-locked_check_ne :
      (j : Text × Text) (start : ℕ)
      → pair_eq key j ≡ false
      → used (locked_check buckets key count window now).0 j start ≡ used buckets j start
  unfolding locked_check
  used-locked_check_ne j start d = ground (arith, get-locked_check j)

  IsSettled-self :
      IsSettled
        (get key buckets)
        (start_of window now)
        (saturating_add (start_of window now) window)
      → IsSettled
          (get key (locked_check buckets key count window now).0)
          (start_of window now)
          (saturating_add (start_of window now) window)
  IsSettled-self h = ground (
    arith,
    get-locked_check key,
    beq_refl key,
    current_bucket-settled (get key buckets) (start_of window now)
        (saturating_add (start_of window now) window) h,
  )

  pub locked_check-IsSettled :
      (j : Text × Text) (start ending : ℕ)
      → IsSettled (get j buckets) start ending
      → (pair_eq key j ≡ false)
        ⊎ ((key ≡ j) × (start_of window now ≡ start) × (saturating_add start window ≡ ending))
      → IsSettled (get j (locked_check buckets key count window now).0) start ending
  locked_check-IsSettled j start ending h (inl other) = ground (arith, get-locked_check j)
  locked_check-IsSettled j start ending h (inr (same, begins, ends)) =
      rw (← same, ← ends, ← begins) (IsSettled-self (rw (same, begins, ends) h))

  pub locked_check-Distinct :
      Distinct buckets → Distinct (locked_check buckets key count window now).0
  unfolding locked_check
  locked_check-Distinct d = insert-Distinct key _ buckets d

-- A cleanup keeps the bucket of a window that has not ended.
pub get-locked_cleanup :
    (buckets : Buckets) (cutoff : ℕ) (k : Text × Text) (start ending : ℕ)
    → Distinct buckets
    → IsSettled (get k buckets) start ending
    → cutoff < ending
    → (used (locked_cleanup buckets cutoff) k start ≡ used buckets k start)
      × IsSettled (get k (locked_cleanup buckets cutoff)) start ending
unfolding locked_cleanup
get-locked_cleanup buckets cutoff k start ending d h l =
    ground (arith, get-retain (λ bucket. ltb cutoff bucket.window_end) k buckets d)

pub locked_cleanup-Distinct :
    (buckets : Buckets) (cutoff : ℕ) → Distinct buckets → Distinct (locked_cleanup buckets cutoff)
unfolding locked_cleanup
locked_cleanup-Distinct buckets cutoff d = retain-Distinct _ buckets d
