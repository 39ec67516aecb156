-- ===== src/Upload/Traversal.antt =====
-- Object keys against a file system's reading of their parts.
use mathlib.Core.List.{reverse, reverse-cons}
use world_infra.Prelude.{
  ◌≡◌, sym, ap, ◌∙◌, ◌≤◌, inl, inr, true, false, not, ◌||◌, some, List, [], ◌∷◌, ◌++◌, append_assoc,
  append-nil, any, all, Option-cases, ltb, ok, guard-ok, arith, if◌then◌else◌, ◌==◌,
}
use world_infra.Text.{Text, codes, text_eq, byte_length, is_control, is_empty}
use world_infra.Text.Scan.{split, strip_prefix, starts_with, ends_with, contains}
use world_infra.Upload.{
  ObjectKeyPolicy, ScopedObjectKey, empty, invalid_object_key, is_dots, invalid_key_syntax,
  has_prefix_boundary, new_with_policy,
}

abbrev parent : List Text → List Text
parent [] = []
parent (part ∷ parts) = parts

-- The directories that the parts of a path lead to, the last one first: an empty part and `.` stay,
-- `..` goes up.
unfoldable pub resolve : List Text → List Text → List Text
resolve stack [] = reverse stack
resolve stack (part ∷ parts) =
    resolve
      (if is_empty part || text_eq part (codes ".")
        then stack
        else if text_eq part (codes "..")
        then parent stack
        else part ∷ stack)
      parts

resolve_plain :
    (parts stack : List Text)
    → any (λ part. is_dots part || is_empty part) parts ≡ false
    → resolve stack parts ≡ reverse stack ++ parts
unfolding resolve is_dots
resolve_plain [] stack h = sym (append-nil (reverse stack))
resolve_plain (part ∷ parts) stack h =
    let solid : (is_empty part || text_eq part (codes ".")) ≡ false = ground arith in
    let forward : text_eq part (codes "..") ≡ false = ground arith in
    rw (solid, forward)
      (resolve_plain parts (part ∷ stack) (ground arith)
        ∙ ap (◌++ parts) (reverse-cons part stack)
        ∙ append_assoc (reverse stack) (part ∷ []) parts)

strip_prefix-append :
    (prefix s rest : Text) → strip_prefix prefix s ≡ some rest → s ≡ prefix ++ rest
unfolding strip_prefix
strip_prefix-append [] s rest h = cc
strip_prefix-append (p ∷ prefix) [] rest h = absurd cc
strip_prefix-append (p ∷ prefix) (c ∷ s) rest h = ground (arith, strip_prefix-append prefix s rest)

-- An accepted key: the text itself, short enough, of allowed characters, in which every part is a
-- directory of its own, below the prefix.
pub record IsScoped (value : Text) (policy : ObjectKeyPolicy) (key : ScopedObjectKey) : Type 0 where
  pub same : key.value ≡ value
  pub short : byte_length value ≤ policy.max_len
  pub allowed : all policy.allowed_char value ≡ true
  pub stays : resolve [] (split b'/' value) ≡ split b'/' value
  pub below :
      (rest : Text) × (value ≡ policy.required_prefix ++ rest)
      × ((is_empty rest || ends_with b'/' policy.required_prefix || starts_with b'/' rest) ≡ true)

below_prefix :
    (value prefix : Text)
    → has_prefix_boundary value prefix ≡ true
    → (rest : Text) × (value ≡ prefix ++ rest)
      × ((is_empty rest || ends_with b'/' prefix || starts_with b'/' rest) ≡ true)
unfolding has_prefix_boundary
below_prefix value prefix h = elim (Option-cases (strip_prefix prefix value)) [
  | inl e ↦ ground (arith, e)
  | inr (rest, e) ↦ (rest, strip_prefix-append prefix value rest e, ground (arith, e))
]

-- A key that is accepted under a policy is the text given, no longer than the limit, of the allowed
-- characters; read as a path it goes down one directory with every part, and it starts with the
-- required prefix, which ends at the end of a part.
pub new_with_policy-IsScoped :
    (value : Text) (policy : ObjectKeyPolicy) (key : ScopedObjectKey)
    → new_with_policy value policy ≡ ok key
    → IsScoped value policy key
unfolding new_with_policy
new_with_policy-IsScoped value policy key h =
    let bad =
      invalid_key_syntax policy.required_prefix policy.allowed_char
      || starts_with b'/' value
      || ends_with b'/' value
      || contains (codes "//") value
      || any (λ part. is_dots part || is_empty part) (split b'/' value)
      || any is_control value
      || any (λ ch. ch == b'\\') value
      || not (all policy.allowed_char value)
      || not (has_prefix_boundary value policy.required_prefix) in
    let (_, h1) = guard-ok (is_empty value) (empty (codes "object_key")) _ key h in
    let (_, h2) =
      guard-ok (is_empty policy.required_prefix) (empty (codes "required_prefix")) _ key h1 in
    let (short, h3) =
      guard-ok (policy.max_len == 0 || ltb policy.max_len (byte_length value)) invalid_object_key _
        key h2 in
    let (good, h4) = guard-ok bad invalid_object_key (ok (record { value = value })) key h3 in
    let parts : any (λ part. is_dots part || is_empty part) (split b'/' value) ≡ false =
      ground (arith, good) in
    let made : record { value = value } ≡ key = cc in
    record {
      same = ap (λ k. k.value) (sym made);
      short = ground (arith, short);
      allowed = ground (arith, good);
      stays = resolve_plain (split b'/' value) [] parts;
      below = below_prefix value policy.required_prefix (ground (arith, good));
    }
