-- ===== src/WorldCycle/Workers.antt =====
-- Which identifiers of workers are accepted.
use world_infra.Prelude.{
  ℕ, ◌≤◌, ◌≡◌, ◌↔◌, Bool, true, false, not, none, some, [], ◌∷◌, any, ok, arith, Option-cases, inl,
  inr,
}
use world_infra.Text.{Text, byte_length, is_control, is_empty, trim}
use world_infra.Text.Scan.{find}
use world_infra.WorldCycle.Errors.{is_id_char, max_owner_id_len, WorkerId, new_worker_id}

find-none : (p : ℕ → Bool) (chars : Text) → (find p chars ≡ none) ↔ (any p chars ≡ false)
find-none p [] = ground arith
find-none p (ch ∷ chars) = ground (arith, find-none p chars)

find-some : (p : ℕ → Bool) (chars : Text) (ch : ℕ) → find p chars ≡ some ch → any p chars ≡ true
find-some p [] ch h = cc
find-some p (c ∷ chars) ch h = ground (arith, find-some p chars ch)

-- An identifier is accepted exactly when the value has no control character and, trimmed, has 1 to
-- 128 bytes, all of them letters, digits, `-`, `_`, `.`, `:` or `/`; what is kept is the trimmed value.
pub new_worker_id_iff :
    (value : Text) (id : WorkerId)
    → (new_worker_id value ≡ ok id) ↔ (
        (any is_control value ≡ false)
        × (is_empty (trim value) ≡ false)
        × (byte_length (trim value) ≤ max_owner_id_len)
        × (any (λ ch. not (is_id_char ch)) (trim value) ≡ false)
        × (id.value ≡ trim value))
unfolding new_worker_id
new_worker_id_iff value id = elim (Option-cases (find is_control value)) [
  | inl clean ↦ elim (Option-cases (find (λ ch. not (is_id_char ch)) (trim value))) [
    | inl safe ↦ ground (
      arith,
      clean,
      safe,
      find-none is_control value,
      find-none (λ ch. not (is_id_char ch)) (trim value),
    )
    | inr (ch, bad) ↦ ground (
      arith,
      clean,
      bad,
      find-none is_control value,
      find-some (λ ch. not (is_id_char ch)) (trim value) ch,
    )
  ]
  | inr (ch, bad) ↦ ground (arith, bad, find-some is_control value ch)
]
