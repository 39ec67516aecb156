-- ===== src/RateLimit/Retry.antt =====
-- A client that waits for as long as a rejection tells it is let in.
use world_infra.Prelude.{ℕ, ◌+◌, ◌-◌, ◌*◌, ◌/◌, ◌≤◌, ◌<◌, ◌≡◌, ◌≢◌, true, some, arith}
use world_infra.Prelude.Int.{pos}
use world_infra.Text.{Text}
use world_infra.Map.{get}
use world_infra.Map.Laws.{beq_refl}
use world_infra.RateLimit.{
  Buckets, bucket_key, u32_max, u64_max, saturating_add, unix_millis, duration_from_millis,
  nanos_per_milli, locked_check,
}
use world_infra.RateLimit.Window.{
  start_of, used, current_bucket_lem, get-locked_check, locked_check-counts,
}

module _ (buckets : Buckets) (key : Text × Text) (count window : ℕ) where
  -- After a check the key's bucket is of the window of the check: a later window finds it unused.
  used-next_window :
      (now start : ℕ)
      → start_of window now ≢ start
      → used (locked_check buckets key count window now).0 key start ≡ 0
  used-next_window now start d = ground (
    arith,
    get-locked_check buckets key count window now key,
    beq_refl key,
    current_bucket_lem (get key buckets) (start_of window now)
        (saturating_add (start_of window now) window),
  )

  next_window :
      (now later : ℕ)
      → 0 < window
      → start_of window now + window ≤ later
      → start_of window now ≢ start_of window later
  next_window now later p h e = absurd (omega arith)

  retry_after_lem :
      (now d : ℕ)
      → now + window ≤ u64_max
      → 0 < window
      → (locked_check buckets key count window now).1.retry_after ≡ some d
      → d ≡ (start_of window now + window - now) * nanos_per_milli
  unfolding locked_check duration_from_millis saturating_add
  retry_after_lem now d b p h = ground (arith, h)

  -- A rejection tells a time to wait that is positive and no longer than the window; and a check
  -- with the same limit at that time or later is allowed, if none comes in between. The times are
  -- nanoseconds after the epoch, the positive window is in milliseconds, its sum with the first
  -- time's milliseconds fits u64, and the count lies between 0 and u32::MAX.
  pub retry_after_allowed :
      (now later d : ℕ)
      → 0 < count
      → count < u32_max
      → 0 < window
      → unix_millis (pos now) + window ≤ u64_max
      → let (after, decision) = locked_check buckets key count window (unix_millis (pos now)) in
        decision.retry_after ≡ some d
        → now + d ≤ later
        → (0 < d)
          × (d ≤ window * nanos_per_milli)
          × ((locked_check after key count window (unix_millis (pos later))).1.allowed ≡ true)
  unfolding unix_millis
  retry_after_allowed now later d c u p b h l = ground (
    arith,
    retry_after_lem (now / nanos_per_milli) d b p h,
    used-next_window (now / nanos_per_milli) (start_of window (later / nanos_per_milli)),
    next_window (now / nanos_per_milli) (later / nanos_per_milli) p,
    locked_check-counts (locked_check buckets key count window (now / nanos_per_milli)).0 key count
        window (later / nanos_per_milli) u,
  )
