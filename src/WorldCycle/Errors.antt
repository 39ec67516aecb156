-- ===== src/WorldCycle/Errors.antt =====
-- crates/world-cycle-core/src/lib.rs: errors, and the identifier of a worker.
use world_infra.Prelude.{ℕ, ◌||◌, ◌==◌, Bool, not, none, some, Result, ok, err, ltb, if◌then◌else◌}
use world_infra.Text.{Text, codes, byte_length, is_control, is_ascii_alphanumeric, trim, is_empty}
use world_infra.Text.Scan.{find}

-- A field's name is a text, a character its code point.
pub data WorldCycleError : Type 0 where
  empty : Text → WorldCycleError
  too_long : Text → ℕ → ℕ → WorldCycleError
  invalid_character : Text → ℕ → WorldCycleError
  invalid_lease_ttl invalid_backoff : WorldCycleError
  unknown_status : Text → WorldCycleError

abbrev pub max_owner_id_len : ℕ
max_owner_id_len = 128

abbrev pub is_id_char : ℕ → Bool
is_id_char ch =
    is_ascii_alphanumeric ch || ch == b'-' || ch == b'_' || ch == b'.' || ch == b':' || ch == b'/'

abbrev pub worker_id : Text
worker_id = codes "worker_id"

pub record WorkerId : Type 0 where
  pub value : Text

-- `WorkerId::new`
unfoldable pub new_worker_id : Text → Result WorldCycleError WorkerId
new_worker_id value = elim (find is_control value) [
  | some ch ↦ err (invalid_character worker_id ch)
  | none ↦
      let value = trim value in
      if is_empty value
      then err (empty worker_id)
      else if ltb max_owner_id_len (byte_length value)
      then err (too_long worker_id (byte_length value) max_owner_id_len)
      else elim (find (λ ch. not (is_id_char ch)) value) [
        | some ch ↦ err (invalid_character worker_id ch)
        | none ↦ ok (record { value = value })
      ]
]
