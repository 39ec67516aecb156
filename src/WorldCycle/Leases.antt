-- ===== src/WorldCycle/Leases.antt =====
-- Leases: who may claim, and until when.
use world_infra.Prelude.{
  ℕ, ◌+◌, ◌*◌, ◌≤◌, ◌<◌, ◌≡◌, ◌↔◌, true, false, not, Option, none, some, arith,
}
use world_infra.Prelude.Int.{ℤ, pos, ◌+ℤ◌, ◌≤ℤ◌, ltb_ℤ, i64_max, IsI64}
use world_infra.Prelude.Int.Laws.{saturating_add_lem}
use world_infra.Text.{Text, text_eq}
use world_infra.Text.Laws.{text_eq_iff, text_eq_refl}
use world_infra.Time.{nanos_per_sec}
use world_infra.WorldCycle.{
  LeaseState, LeasePolicy, lease_expiry_is_active, is_active, is_active_for, claimable_by,
  duration_to_i64_seconds, duration_to_positive_i64_seconds, ttl_seconds, expires_at,
}

holder_claims_of :
    (holder : Option Text) (e : Option ℤ) (owner : Text) (now : ℤ)
    → claimable_by (record { owner_id = holder; expires_at = e }) owner now ≡ true
    → (other : Text) → is_active_for (record { owner_id = holder; expires_at = e }) other now ≡ true
    → other ≡ owner
unfolding claimable_by is_active is_active_for
holder_claims_of none e owner now h other a = cc
holder_claims_of (some o) e owner now h other a =
    ground (arith, text_eq_iff o owner, text_eq_iff o other)

free_claims_of :
    (holder : Option Text) (e : Option ℤ) (owner : Text) (now : ℤ)
    → ((other : Text)
        → is_active_for (record { owner_id = holder; expires_at = e }) other now ≡ true
        → other ≡ owner)
    → claimable_by (record { owner_id = holder; expires_at = e }) owner now ≡ true
unfolding claimable_by is_active is_active_for
free_claims_of none e owner now h = ground arith
free_claims_of (some o) e owner now h = ground (arith, h o, text_eq_iff o owner, text_eq_iff o o)

-- An owner may claim a lease exactly when nobody else holds it.
pub claimable_by_iff :
    (lease : LeaseState) (owner : Text) (now : ℤ)
    → (claimable_by lease owner now ≡ true)
      ↔ ((other : Text) → is_active_for lease other now ≡ true → other ≡ owner)
claimable_by_iff lease owner now = (
  holder_claims_of lease.owner_id lease.expires_at owner now,
  free_claims_of lease.owner_id lease.expires_at owner now,
)

-- The lease that a policy takes.
abbrev pub taken : LeasePolicy → ℤ → LeaseState
taken policy now = record {
  owner_id = some policy.owner_id.value;
  expires_at = some (expires_at policy now);
}

seconds_lem :
    (ttl : ℕ)
    → 0 < ttl
    → (duration_to_positive_i64_seconds ttl * nanos_per_sec < ttl + nanos_per_sec)
      × (ttl ≤ i64_max * nanos_per_sec → ttl ≤ duration_to_positive_i64_seconds ttl * nanos_per_sec)
unfolding duration_to_positive_i64_seconds duration_to_i64_seconds
seconds_lem ttl p = ground arith

-- A lease that a policy takes at an i64 time with a positive time to live stays with its owner for
-- the whole seconds of that time, rounded up, or to the end of the scale: until then no other
-- owner may claim it, and then anyone may.
pub taken_lem :
    (policy : LeasePolicy) (now t : ℤ) (other : Text)
    → IsI64 now
    → 0 < policy.ttl
    → text_eq policy.owner_id.value other ≡ false
    → let seconds = duration_to_positive_i64_seconds policy.ttl in
      let ends = expires_at policy now in
      IsI64 ends
      × (ends ≤ℤ now +ℤ pos seconds)
      × (now +ℤ pos seconds ≤ℤ pos i64_max → ends ≡ now +ℤ pos seconds)
      × (seconds * nanos_per_sec < policy.ttl + nanos_per_sec)
      × (policy.ttl ≤ i64_max * nanos_per_sec → policy.ttl ≤ seconds * nanos_per_sec)
      × (claimable_by (taken policy now) policy.owner_id.value t ≡ true)
      × (is_active_for (taken policy now) policy.owner_id.value t ≡ ltb_ℤ t ends)
      × (claimable_by (taken policy now) other t ≡ not (ltb_ℤ t ends))
unfolding claimable_by is_active is_active_for lease_expiry_is_active expires_at ttl_seconds
taken_lem policy now t other i p d = ground (
  arith,
  saturating_add_lem now (duration_to_positive_i64_seconds policy.ttl) i,
  seconds_lem policy.ttl p,
  text_eq_refl policy.owner_id.value,
)
