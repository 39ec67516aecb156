-- ===== src/TenantScope/Names.antt =====
-- The names of settings that are accepted, and what binding an assignment sets.
use world_infra.Prelude.{
  ◌≡◌, refl, sym, subst, ◌≤◌, ltb, true, false, not, List, [], ◌∷◌, any, all, ok, guard-ok, arith,
}
use world_infra.Text.{Text, byte_length, is_control, trim}
use world_infra.Text.Laws.{any-trim, trim-trim}
use world_infra.Text.Scan.{split, join}
use world_infra.Text.Split.{join-split}
use world_infra.TenantScope.{
  invalid_setting_name, SettingName, is_unquoted_identifier, new_setting_name,
}

identifiers :
    (parts : List Text)
    → any (λ part. not (is_unquoted_identifier part)) parts ≡ false
    → all is_unquoted_identifier parts ≡ true
identifiers [] h = refl
identifiers (part ∷ parts) h = ground (arith, identifiers parts)

-- A name is accepted only when, trimmed, it is identifiers joined with dots in at most 128 bytes,
-- and then it stands for itself: it is accepted again, as it is.
pub new_setting_name-IsDotted :
    (value : Text) (name : SettingName)
    → new_setting_name value ≡ ok name
    → (name.value ≡ trim value)
      × (name.value ≡ join b'.' (split b'.' name.value))
      × (all is_unquoted_identifier (split b'.' name.value) ≡ true)
      × (byte_length name.value ≤ 128)
      × (new_setting_name name.value ≡ ok name)
unfolding new_setting_name
new_setting_name-IsDotted value name h =
    let (plain, rest) = guard-ok (any is_control value) invalid_setting_name _ name h in
    let (formed, final) =
      guard-ok _ invalid_setting_name (ok (record { value = trim value })) name rest in
    let named : name ≡ record { value = trim value } = cc in
    let parts = split b'.' (trim value) in
    let good : any (λ part. not (is_unquoted_identifier part)) parts ≡ false =
      ground (arith, formed) in
    let short : ltb 128 (byte_length (trim value)) ≡ false = ground (arith, formed) in
    subst
      (λ n.
        (n.value ≡ trim value)
        × (n.value ≡ join b'.' (split b'.' n.value))
        × (all is_unquoted_identifier (split b'.' n.value) ≡ true)
        × (byte_length n.value ≤ 128)
        × (new_setting_name n.value ≡ ok n))
      (sym named)
      (
        refl,
        sym (join-split b'.' (trim value)),
        identifiers parts good,
        ground (arith, short),
        rw (any-trim is_control value plain, trim-trim value, formed) refl,
      )
