-- ===== src/AuthRecovery/Shapes.antt =====
-- Which tokens are plausible.
use world_infra.Prelude.{
  ℕ, suc, ◌≡◌, refl, inl, inr, Bool, true, false, not, ◌&&◌, ◌||◌, [], ◌∷◌, any, all, all_narrow,
  ◌==◌, Bool-cases, arith,
}
use world_infra.Text.{Text, byte_length, is_control, is_whitespace, is_ascii_alphanumeric, is_empty}
use world_infra.Text.Laws.{text_eq_refl, trim_of_plain}
use world_infra.AuthRecovery.{
  RecoveryTokenPolicy, is_ascii_hexdigit, uuid_bytes, is_uuid_like, is_url_safe_byte, accept_shape,
  validate_recovery_token, plausible_recovery_token,
}

-- The shape that a policy asks for.
abbrev pub has_shape : Text → RecoveryTokenPolicy → Bool
has_shape token policy =
    (policy.allow_uuid && is_uuid_like token)
    || (policy.allow_url_safe
        && (byte_length token == policy.url_safe_len && all is_url_safe_byte token))

uuid_bytes-url_safe :
    (idx : ℕ) (token : Text) → uuid_bytes idx token ≡ true → all is_url_safe_byte token ≡ true
unfolding uuid_bytes is_ascii_hexdigit is_ascii_alphanumeric
uuid_bytes-url_safe idx [] h = refl
uuid_bytes-url_safe idx (byte ∷ bytes) h = ground (arith, uuid_bytes-url_safe (suc idx) bytes)

has_shape-url_safe :
    (token : Text) (policy : RecoveryTokenPolicy)
    → has_shape token policy ≡ true
    → all is_url_safe_byte token ≡ true
unfolding is_uuid_like
has_shape-url_safe token policy h = ground (arith, h, uuid_bytes-url_safe 0 token)

url_safe-plain :
    (token : Text)
    → all is_url_safe_byte token ≡ true
    → (any is_whitespace token ≡ false) × (any is_control token ≡ false)
unfolding is_whitespace is_control is_ascii_alphanumeric
url_safe-plain token h = (
  all_narrow is_url_safe_byte is_whitespace token (λ c k. ground arith) h,
  all_narrow is_url_safe_byte is_control token (λ c k. ground arith) h,
)

-- A token is plausible exactly when it is not empty and has a shape that the policy allows: 36 bytes of
-- hexadecimal digits with dashes in the four places of a UUID, or the configured number of letters,
-- digits, dashes and underscores. White space and control characters are refused by the shapes alone.
pub plausible_recovery_token-shape :
    (token : Text) (policy : RecoveryTokenPolicy)
    → plausible_recovery_token token policy ≡ (not (is_empty token) && has_shape token policy)
unfolding plausible_recovery_token validate_recovery_token accept_shape
plausible_recovery_token-shape token policy = elim (Bool-cases (has_shape token policy)) [
  | inl shaped ↦
      let (solid, tame) = url_safe-plain token (has_shape-url_safe token policy shaped) in
      rw (trim_of_plain token solid, text_eq_refl token, tame) (ground (arith, shaped))
  | inr other ↦ ground (arith, other)
]
