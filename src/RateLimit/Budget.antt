-- ===== src/RateLimit/Budget.antt =====
-- A window admits exactly its count: histories of checks and cleanups on one backend, in the order
-- in which they take the lock.
use world_infra.Prelude.{
  ℕ, ◌+◌, ◌-◌, ◌<◌, ◌≡◌, ◌⊎◌, inl, inr, false, Option, none, some, List, [], ◌∷◌, arith,
  if◌then◌else◌, min, All, ap,
}
use world_infra.Text.{Text}
use world_infra.Map.{get, Distinct}
use world_infra.RateLimit.{
  Buckets, RateLimitDecision, bucket_key, pair_eq, pair_eq_iff, u32_max, saturating_add,
  locked_check, locked_cleanup,
}
use world_infra.RateLimit.Window.{
  start_of, used, IsSettled, locked_check-counts, used-locked_check_ne, locked_check-IsSettled,
  locked_check-Distinct, get-locked_cleanup, locked_cleanup-Distinct,
}

-- A check has a key, a count, and a window and a time in milliseconds; a cleanup has its cutoff.
pub data Op : Type 0 where
  checks : Text × Text → ℕ → ℕ → ℕ → Op
  cleans : ℕ → Op

unfoldable pub locked_step : Buckets → Op → Buckets × Option RateLimitDecision
locked_step buckets (checks key count window now) =
    let (after, decision) = locked_check buckets key count window now in (after, some decision)
locked_step buckets (cleans cutoff) = (locked_cleanup buckets cutoff, none)

unfoldable pub locked_run : Buckets → List Op → Buckets × List (Op × Option RateLimitDecision)
locked_run buckets [] = (buckets, [])
locked_run buckets (op ∷ ops) =
    let (after, answer) = locked_step buckets op in
    let (last, events) = locked_run after ops in (last, (op, answer) ∷ events)

-- The requests for the key `k`, and those of them that were allowed.
abbrev pub is_asked : Text × Text → Op → ℕ
is_asked k (checks key count window now) = if pair_eq key k then 1 else 0
is_asked k (cleans cutoff) = 0

abbrev pub asked : Text × Text → List Op → ℕ
asked k [] = 0
asked k (op ∷ ops) = is_asked k op + asked k ops

abbrev pub is_admitted : Text × Text → Op × Option RateLimitDecision → ℕ
is_admitted k (op, none) = 0
is_admitted k (op, some decision) = if decision.allowed then is_asked k op else 0

abbrev pub admitted : Text × Text → List (Op × Option RateLimitDecision) → ℕ
admitted k [] = 0
admitted k (event ∷ events) = is_admitted k event + admitted k events

-- All that a history may do while one window of a key is open: checks of the key with its limit and
-- in that window, any checks of other keys, and cleanups with a cutoff before the window's end.
module _ (k : Text × Text) (count window start : ℕ) where
  abbrev pub IsWithin : Op → Type 0
  IsWithin (checks key c w now) =
      (pair_eq key k ≡ false) ⊎ ((key ≡ k) × (c ≡ count) × (w ≡ window) × (start_of w now ≡ start))
  IsWithin (cleans cutoff) = cutoff < saturating_add start window

  -- What a history needs of the buckets that it finds.
  pub record IsReady (buckets : Buckets) : Type 0 where
    pub distinct : Distinct buckets
    pub settled : IsSettled (get k buckets) start (saturating_add start window)

  step-IsReady :
      (buckets : Buckets) (op : Op)
      → IsReady buckets
      → IsWithin op
      → IsReady (locked_step buckets op).0
  unfolding locked_step
  step-IsReady buckets (checks key c w now) r (inl other) = record {
    distinct = locked_check-Distinct buckets key c w now r.distinct;
    settled = locked_check-IsSettled buckets key c w now k start _ r.settled (inl other);
  }
  step-IsReady buckets (checks key c w now) r (inr (same, limit, wide, begins)) = record {
    distinct = locked_check-Distinct buckets key c w now r.distinct;
    settled =
        locked_check-IsSettled buckets key c w now k start _ r.settled
          (inr (same, begins, ap (saturating_add start) wide));
  }
  step-IsReady buckets (cleans cutoff) r l = record {
    distinct = locked_cleanup-Distinct buckets cutoff r.distinct;
    settled = (get-locked_cleanup buckets cutoff k start _ r.distinct r.settled l).1;
  }

  -- One step: what it admits and what it leaves of the budget.
  step-budget :
      (buckets : Buckets) (op : Op)
      → count < u32_max
      → IsReady buckets
      → IsWithin op
      → (is_admitted k (op, (locked_step buckets op).1)
          ≡ min (is_asked k op) (count - used buckets k start))
        × (count - used (locked_step buckets op).0 k start
            ≡ count - used buckets k start - is_asked k op)
  unfolding locked_step
  step-budget buckets (checks key c w now) b r (inl other) =
      ground (arith, used-locked_check_ne buckets key c w now k start other)
  step-budget buckets (checks key c w now) b r (inr (same, limit, wide, begins)) =
      ground (arith, locked_check-counts buckets key c w now (omega arith), pair_eq_iff key k)
  step-budget buckets (cleans cutoff) b r l = ground (
    arith,
    get-locked_cleanup buckets cutoff k start (saturating_add start window) r.distinct r.settled l,
  )

  -- While a window is open it admits exactly its count, if that is below u32::MAX: of the requests
  -- for one key, all with one limit and in one window, as many are allowed as are asked for, up to
  -- what is left of the count, whatever checks of other keys and whatever cleanups with a cutoff
  -- before the window's end come in between. The keys of the buckets that the history finds are
  -- distinct, and the key's bucket of this window, if there is one, ends with it.
  pub admitted-locked_run :
      (buckets : Buckets) (ops : List Op)
      → count < u32_max
      → IsReady buckets
      → All IsWithin ops
      → admitted k (locked_run buckets ops).1 ≡ min (asked k ops) (count - used buckets k start)
  unfolding locked_run
  admitted-locked_run buckets [] b r w = omega arith
  admitted-locked_run buckets (op ∷ ops) b r w = omega (
    arith,
    step-budget buckets op b r w.0,
    admitted-locked_run (locked_step buckets op).0 ops b (step-IsReady buckets op r w.0) w.1,
  )
