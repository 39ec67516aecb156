-- ===== src/RateLimit.antt =====
-- crates/rate-limit-core/src/lib.rs: limits, keys and the in-process fixed-window backend. A
-- `SystemTime` is its number of nanoseconds from the Unix epoch, a `Duration` its number of
-- nanoseconds. A poisoned mutex answers with the text of its error.
pub mod Catalog
pub mod Overrides
pub mod Window
pub mod Budget
pub mod Retry
pub mod Cleanup
pub mod Backend
pub mod Parse
pub mod ParseLaws
pub mod Subject
pub mod SubjectLaws
mod Tests
mod TextTests
use world_infra.Prelude.{
  ℕ, suc, ◌+◌, ◌-◌, ◌*◌, ◌/◌, ◌%◌, ◌^◌, ◌≡◌, Bool, true, false, ◌&&◌, ◌||◌, not, Option, none, some,
  List, [], ◌∷◌, ltb, leb, ◌==◌, if◌then◌else◌, min, max, length, any, Result, ok, err, ◌>>=◌, ◌>>◌,
  fail_if, ok_or, arith, ◌↔◌,
}
use world_infra.Prelude.Int.{ℤ, pos, negsuc}
use world_infra.Text.{
  Text, codes, text_eq, byte_length, is_control, is_ascii_alphanumeric, trim, is_empty,
}
use world_infra.Text.Laws.{text_eq_iff}
use world_infra.Map.{Eq, get, insert, retain}

pub data LimitParseError : Type 0 where
  empty invalid_count invalid_window : LimitParseError

-- `count` is a `NonZeroU32`.
pub data LimitSpec : Type 0 where
  fixed : ℕ → ℕ → LimitSpec
  unlimited : LimitSpec

-- `LimitSpec::fixed`
unfoldable pub new_fixed : ℕ → ℕ → Result LimitParseError LimitSpec
new_fixed count window = do
  fail_if (window == 0) invalid_window
  fail_if (count == 0) invalid_count
  ok (fixed count window)

pub data RateLimitError : Type 0 where
  invalid_key zero_window : RateLimitError
  backend : Text → RateLimitError

-- The characters of namespaces, keys and labels: letters, digits, `-`, `_`, `.`, `:` and `/`.
abbrev pub is_key_char : ℕ → Bool
is_key_char ch =
    is_ascii_alphanumeric ch || ch == b'-' || ch == b'_' || ch == b'.' || ch == b':' || ch == b'/'

unfoldable pub validate_key_part : Text → Result RateLimitError Text
validate_key_part value = do
  fail_if (any is_control value) invalid_key
  let value = trim value
  fail_if (is_empty value || ltb 256 (byte_length value) || any (λ ch. not (is_key_char ch)) value)
      invalid_key
  ok value

-- `Namespace` and `RateLimitKey` hold a validated text, and a bucket's key is the pair of the two.
unfoldable pub new_namespace : Text → Result RateLimitError Text
new_namespace value = validate_key_part value

unfoldable pub new_key : Text → Result RateLimitError Text
new_key value = validate_key_part value

abbrev pub pair_eq : Text × Text → Text × Text → Bool
pair_eq (a, b) (c, d) = text_eq a c && text_eq b d

pub pair_eq_iff : (p q : Text × Text) → (pair_eq p q ≡ true) ↔ (p ≡ q)
pair_eq_iff (a, b) (c, d) = ground (arith, text_eq_iff a c, text_eq_iff b d)

instance abbrev pub bucket_key : Eq (Text × Text)
bucket_key = record { beq = pair_eq; beq_iff = pair_eq_iff }

pub data RateLimitHealth : Type 0 where
  healthy degraded unavailable : RateLimitHealth

pub data FailurePolicy : Type 0 where
  fail_open fail_closed : FailurePolicy

pub record RateLimitDecision : Type 0 where
  pub allowed : Bool
  pub remaining : ℕ
  pub retry_after : Option ℕ
  pub health : RateLimitHealth

abbrev pub u32_max : ℕ
u32_max = 2 ^ 32 - 1

abbrev pub u64_max : ℕ
u64_max = 2 ^ 64 - 1

abbrev pub u128_max : ℕ
u128_max = 2 ^ 128 - 1

-- `RateLimitDecision::unlimited`
abbrev pub unlimited_decision : RateLimitDecision
unlimited_decision = record {
  allowed = true;
  remaining = u32_max;
  retry_after = none;
  health = healthy;
}

unfoldable pub from_failure : FailurePolicy → RateLimitDecision
from_failure policy = record {
  allowed = elim policy [ fail_open ↦ true | fail_closed ↦ false ];
  remaining = 0;
  retry_after = none;
  health = unavailable;
}

pub record Bucket : Type 0 where
  pub window_start : ℕ
  pub window_end : ℕ
  pub count : ℕ

abbrev pub Buckets : Type 0
Buckets = List ((Text × Text) × Bucket)

abbrev pub nanos_per_milli : ℕ
nanos_per_milli = 1_000_000

-- `u128::saturating_add`
unfoldable pub saturating_add : ℕ → ℕ → ℕ
saturating_add a b = min (a + b) u128_max

-- A time before the epoch counts as the epoch.
unfoldable pub unix_millis : ℤ → ℕ
unix_millis (pos now) = now / nanos_per_milli
unix_millis (negsuc now) = 0

unfoldable pub duration_millis_ceil : ℕ → ℕ
duration_millis_ceil duration =
    saturating_add (duration / nanos_per_milli)
      (if duration % 1_000_000_000 % nanos_per_milli == 0 then 0 else 1)

unfoldable pub window_millis : ℕ → ℕ
window_millis window = max (duration_millis_ceil window) 1

unfoldable pub duration_from_millis : ℕ → ℕ
duration_from_millis millis = min millis u64_max * nanos_per_milli

abbrev pub empty_bucket : ℕ → ℕ → Bucket
empty_bucket start ending = record { window_start = start; window_end = ending; count = 0 }

-- The bucket that a check finds under its key, or makes: an entry of another window is replaced.
unfoldable pub current_bucket : Option Bucket → ℕ → ℕ → Bucket
current_bucket none start ending = empty_bucket start ending
current_bucket (some bucket) start ending =
    if bucket.window_start == start then bucket else empty_bucket start ending

-- What `check` does under the lock, for a window and a time in milliseconds.
unfoldable pub locked_check : Buckets → Text × Text → ℕ → ℕ → ℕ → Buckets × RateLimitDecision
locked_check buckets key count window now =
    let window_start = now - now % window in
    let window_end = saturating_add window_start window in
    let bucket = current_bucket (get key buckets) window_start window_end in
    let used = min (bucket.count + 1) u32_max in
    let allowed = leb used count in
    (
      insert key (record bucket { count = used }) buckets,
      record {
        allowed = allowed;
        remaining = count - used;
        retry_after =
            if allowed
            then none
            else some (duration_from_millis (max (saturating_add window_start window - now) 1));
        health = healthy;
      },
    )

unfoldable pub locked_cleanup : Buckets → ℕ → Buckets
locked_cleanup buckets cutoff = retain (λ bucket. ltb cutoff bucket.window_end) buckets

pub record InProcessFixedWindow : Type 0 where
  pub buckets : Buckets
  pub poisoned : Option Text

unfoldable pub with_lock :
    {A : Type 0}
    → InProcessFixedWindow
    → (Buckets → Buckets × A)
    → InProcessFixedWindow × Result RateLimitError A
with_lock s step = elim s.poisoned [
  | some error ↦ (s, err (backend error))
  | none ↦ let (buckets, a) = step s.buckets in (record s { buckets = buckets }, ok a)
]

unfoldable pub check :
    InProcessFixedWindow
    → Text
    → Text
    → LimitSpec
    → ℤ
    → InProcessFixedWindow × Result RateLimitError RateLimitDecision
check s namespace key unlimited now = (s, ok unlimited_decision)
check s namespace key (fixed count window) now =
    if window == 0
    then (s, err zero_window)
    else with_lock s λ buckets.
      locked_check buckets (namespace, key) count (window_millis window) (unix_millis now)

unfoldable pub cleanup :
    InProcessFixedWindow → ℤ → ℕ → InProcessFixedWindow × Result RateLimitError ℕ
cleanup s now older_than = with_lock s λ buckets.
    let cutoff = unix_millis now - duration_millis_ceil older_than in
    let kept = locked_cleanup buckets cutoff in (kept, length buckets - length kept)

unfoldable pub active_bucket_count : InProcessFixedWindow → Result RateLimitError ℕ
active_bucket_count s = (with_lock s λ buckets. (buckets, length buckets)).1
