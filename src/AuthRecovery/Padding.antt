-- ===== src/AuthRecovery/Padding.antt =====
-- How long a padded response takes.
use world_infra.Prelude.{
  ℕ, ◌+◌, ◌-◌, ◌*◌, ◌^◌, max, ◌≡◌, refl, sym, ap, ◌≤◌, ◌<◌, ok, ltb, ltb→le, guard-ok, ok_injective,
  arith,
}
use world_infra.AuthRecovery.{
  invalid_padding_policy, ResponsePaddingPolicy, new_response_padding, from_millis_bounds,
  target_duration, remaining_delay, from_millis,
}

bounds :
    (min_ms max_ms : ℕ) (policy : ResponsePaddingPolicy)
    → from_millis_bounds min_ms max_ms ≡ ok policy
    → (min_ms ≤ max_ms)
      × (policy
          ≡ record { base = from_millis min_ms; jitter_start = 0; jitter_end = max_ms - min_ms })
unfolding from_millis_bounds new_response_padding
bounds min_ms max_ms policy h =
    let (ordered, h1) =
      guard-ok (ltb max_ms min_ms) invalid_padding_policy
        (new_response_padding (from_millis min_ms) 0 (max_ms - min_ms)) policy h in
    let (_, h2) =
      guard-ok (ltb (max_ms - min_ms) 0) invalid_padding_policy
        (ok (record { base = from_millis min_ms; jitter_start = 0; jitter_end = max_ms - min_ms }))
        policy h1 in
    (
      ltb→le max_ms min_ms ordered,
      sym (
          ok_injective
            (record { base = from_millis min_ms; jitter_start = 0; jitter_end = max_ms - min_ms })
            policy _ refl h2),
    )

-- With bounds in milliseconds of 64 bits and a source that picks within the range it is given, a
-- response that is ready after `elapsed` and waits for the remaining delay is sent after the least
-- duration at the earliest, and after the greatest at the latest when it was ready by then.
pub target_duration-bounds :
    (gen_range : ℕ → ℕ → ℕ) (min_ms max_ms : ℕ) (policy : ResponsePaddingPolicy) (elapsed : ℕ)
    → ((a b : ℕ) → a ≤ b → (a ≤ gen_range a b) × (gen_range a b ≤ b))
    → max_ms < 2 ^ 64
    → from_millis_bounds min_ms max_ms ≡ ok policy
    → (from_millis min_ms ≤ elapsed + remaining_delay (target_duration gen_range policy) elapsed)
      × (elapsed + remaining_delay (target_duration gen_range policy) elapsed
          ≤ max elapsed (from_millis max_ms))
unfolding target_duration remaining_delay
target_duration-bounds gen_range min_ms max_ms policy elapsed picks fits h =
    let (ordered, made) = bounds min_ms max_ms policy h in
    let (low, high) = picks 0 (max_ms - min_ms) (omega arith) in
    let base : policy.base ≡ min_ms * 1_000_000 = ap (λ p. p.base) made in
    let jitter : gen_range policy.jitter_start policy.jitter_end ≡ gen_range 0 (max_ms - min_ms) =
      ap (λ p. gen_range p.jitter_start p.jitter_end) made in
    (
      omega (arith, base, jitter, high, ordered, fits),
      omega (arith, base, jitter, high, ordered, fits),
    )
