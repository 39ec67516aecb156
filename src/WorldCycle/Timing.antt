-- ===== src/WorldCycle/Timing.antt =====
-- Backoff and cutoffs against what they mean.
use world_infra.Prelude.{ℕ, ◌-◌, ◌*◌, ◌^◌, ◌≤◌, ◌<◌, ◌≡◌, ◌↔◌, arith, min, ok}
use world_infra.Prelude.Int.{
  ℤ, pos, negsuc, ◌+ℤ◌, ◌-ℤ◌, ◌≤ℤ◌, ◌<ℤ◌, IsI64, clamp_i64, saturating_sub,
}
use world_infra.Prelude.Int.Laws.{saturating_sub_iff}
use world_infra.Backoff.{duration_max}
use world_infra.Backoff.Laws.{delay_loop_lem}
use world_infra.WorldCycle.{
  RetryBackoffPolicy, new_backoff, delay_for_attempt_index, duration_to_i64_seconds,
  stale_cutoff_unix_seconds, retention_cutoff_cycle,
}

abbrev pub u32_max : ℕ
u32_max = 2 ^ 32 - 1

-- The delay of an accepted policy, whose maximum is a `Duration`, is the closed form: the initial
-- delay times a power of the multiplier, capped at the maximum.
pub delay_for_attempt_index_lem :
    (initial max multiplier n : ℕ) (policy : RetryBackoffPolicy)
    → new_backoff initial max multiplier ≡ ok policy
    → max ≤ duration_max
    → delay_for_attempt_index policy n ≡ min max (initial * multiplier ^ n)
unfolding new_backoff delay_for_attempt_index
delay_for_attempt_index_lem initial max multiplier n policy h b =
    ground (arith, delay_loop_lem max multiplier n initial b)

keep_less_one :
    (keep : ℕ) → 0 < keep → keep ≤ u32_max → saturating_sub (pos keep) (pos 1) ≡ pos (keep - 1)
unfolding saturating_sub clamp_i64 ◌-ℤ◌
keep_less_one keep p u = ground arith

+ℤ_pred :
    (now cycle : ℤ) (keep : ℕ)
    → 0 < keep
    → (now ≤ℤ cycle +ℤ pos (keep - 1)) ↔ (now <ℤ cycle +ℤ pos keep)
unfolding ◌+ℤ◌
+ℤ_pred (pos now) (pos cycle) keep p = ground arith
+ℤ_pred (pos now) (negsuc cycle) keep p = ground arith
+ℤ_pred (negsuc now) (pos cycle) keep p = ground arith
+ℤ_pred (negsuc now) (negsuc cycle) keep p = ground arith

-- On i64, also where it saturates: pruning at the cutoff keeps a cycle exactly if it is one of the
-- `keep` newest that are complete, or newer still, for a positive u32 `keep`; a row is stale at
-- the cutoff exactly when the grace, in seconds, has gone by.
pub cutoffs_lem :
    (now cycle : ℤ) (keep grace : ℕ)
    → IsI64 now
    → IsI64 cycle
    → 0 < keep
    → keep ≤ u32_max
    → ((retention_cutoff_cycle now keep ≤ℤ cycle) ↔ (now <ℤ cycle +ℤ pos keep))
      × ((cycle <ℤ stale_cutoff_unix_seconds now grace)
          ↔ (cycle +ℤ pos (duration_to_i64_seconds grace) <ℤ now))
unfolding retention_cutoff_cycle stale_cutoff_unix_seconds
cutoffs_lem now cycle keep grace i j p u = ground (
  arith,
  saturating_sub_iff now cycle (keep - 1) i j,
  saturating_sub_iff now cycle (duration_to_i64_seconds grace) i j,
  keep_less_one keep p u,
  +ℤ_pred now cycle keep p,
)
