-- ===== src/RateLimit/SubjectLaws.antt =====
-- When two subjects share a key.
use world_infra.Prelude.{
  ℕ, ◌≡◌, refl, sym, ap, ◌∙◌, subst, Bool, true, false, not, [], ◌∷◌, ◌++◌, any, All, ok,
  Result-cases, inl, inr, arith, if◌then◌else◌,
}
use world_infra.Text.{Text, codes, byte_length, is_whitespace, is_ascii_alphanumeric, trim}
use world_infra.Text.Decimal.{decimal, IsDigit, decimal-IsDigit, decimal_prefix_injective}
use world_infra.Text.Laws.{any-append, append_injective, trim_of_plain, trim-trim}
use world_infra.RateLimit.{is_key_char, validate_key_part, new_key}
use world_infra.RateLimit.Subject.{
  kind_of, length_prefixed_subject_key, raw_key, key_of_parts, subject_key,
}

key_char_plain : (c : ℕ) → is_key_char c ≡ true → is_whitespace c ≡ false
unfolding is_whitespace is_ascii_alphanumeric
key_char_plain c h = ground arith

key_chars_plain :
    (s : Text) → any (λ ch. not (is_key_char ch)) s ≡ false → any is_whitespace s ≡ false
key_chars_plain [] h = refl
key_chars_plain (c ∷ s) h = ground (arith, key_char_plain c, key_chars_plain s)

part_plain :
    (value part : Text) → validate_key_part value ≡ ok part → any is_whitespace part ≡ false
unfolding validate_key_part
part_plain value part h = ground (arith, key_chars_plain part)

digits_plain : (s : Text) → All IsDigit s → any is_whitespace s ≡ false
unfolding is_whitespace
digits_plain [] h = refl
digits_plain (c ∷ s) h = ground (arith, digits_plain s h.1)

decimal_plain : (n : ℕ) → any is_whitespace (decimal n) ≡ false
decimal_plain n = digits_plain (decimal n) (decimal-IsDigit n)

kind_plain : (raw : Bool) → any is_whitespace (kind_of raw) ≡ false
unfolding is_whitespace
kind_plain true = refl
kind_plain false = refl

text_plain :
    (prefix label : Text) (raw : Bool) (subject : Text)
    → any is_whitespace prefix ≡ false
    → any is_whitespace label ≡ false
    → any is_whitespace subject ≡ false
    → any is_whitespace (length_prefixed_subject_key prefix label raw subject) ≡ false
unfolding length_prefixed_subject_key is_whitespace
text_plain prefix label raw subject p l s =
    any-append is_whitespace (decimal (byte_length prefix)) _ (decimal_plain (byte_length prefix)) (
      any-append is_whitespace prefix _ p (
        any-append is_whitespace (decimal (byte_length label)) _ (decimal_plain (byte_length label))
          (any-append is_whitespace label _ l (
            any-append is_whitespace (kind_of raw) _ (kind_plain raw) (
              any-append is_whitespace (decimal (byte_length subject)) (b':' ∷ subject)
                (decimal_plain (byte_length subject)) s)))))

colon_is_no-IsDigit : ¬ IsDigit b':'
colon_is_no-IsDigit h = omega arith

-- What stands after the prefix and after the label.
abbrev after_label : Bool → Text → Text
after_label r s = kind_of r ++ (codes ":s" ++ (decimal (byte_length s) ++ b':' ∷ s))

abbrev after_prefix : Text → Bool → Text → Text
after_prefix l r s = codes ":l" ++ (decimal (byte_length l) ++ b':' ∷ (l ++ b':' ∷ after_label r s))

abbrev first : Text → ℕ
first [] = 0
first (c ∷ s) = c

after_label-injective :
    (r r' : Bool) (s s' : Text) → after_label r s ≡ after_label r' s' → (r ≡ r') × (s ≡ s')
after_label-injective true true s s' e = (
  refl,
  (decimal_prefix_injective b':' (byte_length s) (byte_length s') s s' colon_is_no-IsDigit
      (cc e)).1,
)
after_label-injective false false s s' e = (
  refl,
  (decimal_prefix_injective b':' (byte_length s) (byte_length s') s s' colon_is_no-IsDigit
      (cc e)).1,
)
after_label-injective true false s s' e = absurd (omega (arith, ap first e))
after_label-injective false true s s' e = absurd (omega (arith, ap first e))

after_prefix-injective :
    (l l' : Text) (r r' : Bool) (s s' : Text)
    → after_prefix l r s ≡ after_prefix l' r' s'
    → (l ≡ l') × (r ≡ r') × (s ≡ s')
after_prefix-injective l l' r r' s s' e =
    let (lengths, rest) =
      decimal_prefix_injective b':' (byte_length l) (byte_length l') (l ++ b':' ∷ after_label r s)
        (l' ++ b':' ∷ after_label r' s') colon_is_no-IsDigit (cc e) in
    let (same, tails) =
      append_injective l l' (b':' ∷ after_label r s) (b':' ∷ after_label r' s') lengths rest in
    let (kinds, subjects) = after_label-injective r r' s s' (cc tails) in (same, kinds, subjects)

text-injective :
    (p p' l l' : Text) (r r' : Bool) (s s' : Text)
    → length_prefixed_subject_key p l r s ≡ length_prefixed_subject_key p' l' r' s'
    → (p ≡ p') × (l ≡ l') × (r ≡ r') × (s ≡ s')
unfolding length_prefixed_subject_key
text-injective p p' l l' r r' s s' e =
    let (lengths, rest) =
      decimal_prefix_injective b':' (byte_length p) (byte_length p') (p ++ after_prefix l r s)
        (p' ++ after_prefix l' r' s') colon_is_no-IsDigit (cc e) in
    let (same, tails) =
      append_injective p p' (after_prefix l r s) (after_prefix l' r' s') lengths rest in
    let (labels, kinds, subjects) = after_prefix-injective l l' r r' s s' tails in
    (same, labels, kinds, subjects)

new_key_of_plain :
    (text key : Text) → any is_whitespace text ≡ false → new_key text ≡ ok key → key ≡ text
unfolding new_key validate_key_part
new_key_of_plain text key p h = ground (arith, trim_of_plain text p)

validated_trim : (value part : Text) → validate_key_part value ≡ ok part → part ≡ trim value
unfolding validate_key_part
validated_trim value part h = ground arith

key_of_parts_lem :
    (sha256_hex : Text → Text) (p l s key : Text)
    → any is_whitespace p ≡ false
    → any is_whitespace l ≡ false
    → any is_whitespace (sha256_hex s) ≡ false
    → trim s ≡ s
    → key_of_parts sha256_hex p l s ≡ ok key
    → (raw : Bool) × (key ≡ length_prefixed_subject_key p l raw (if raw then s else sha256_hex s))
unfolding key_of_parts raw_key
key_of_parts_lem sha256_hex p l s key hp hl hd tight h =
    let digest =
      new_key_of_plain (length_prefixed_subject_key p l false (sha256_hex s)) key
        (text_plain p l false (sha256_hex s) hp hl hd) in
    elim (Result-cases (validate_key_part s)) [
      | inl (part, valid) ↦ elim (Result-cases (new_key (length_prefixed_subject_key p l true s))) [
        | inl (k, made) ↦
            let same : key ≡ k = ground (arith, valid, made) in
            let plain : any is_whitespace s ≡ false =
              subst (λ t. any is_whitespace t ≡ false) (validated_trim s part valid ∙ tight)
                (part_plain s part valid) in
            (
              true,
              same
                  ∙ new_key_of_plain (length_prefixed_subject_key p l true s) k
                      (text_plain p l true s hp hl plain) made,
            )
        | inr (e, failed) ↦ (false, digest (ground (arith, valid, failed)))
      ]
      | inr (e, bad) ↦ (false, digest (ground (arith, bad)))
    ]

same_subject :
    (raw raw' : Bool) (s s' t t' : Text)
    → (t ≡ t' → s ≡ s')
    → raw ≡ raw'
    → (if raw then s else t) ≡ (if raw' then s' else t')
    → s ≡ s'
same_subject true true s s' t t' n k e = e
same_subject false false s s' t t' n k e = n e
same_subject true false s s' t t' n k e = absurd (cc k)
same_subject false true s s' t t' n k e = absurd (cc k)

subject_key-eq-ok :
    (sha256_hex : Text → Text) (prefix label subject key : Text)
    → any is_whitespace (sha256_hex (trim subject)) ≡ false
    → subject_key sha256_hex prefix label subject ≡ ok key
    → (p : Text) × (l : Text) × (raw : Bool) × (validate_key_part prefix ≡ ok p)
      × (validate_key_part label ≡ ok l)
      × (key
          ≡ length_prefixed_subject_key p l raw
              (if raw then trim subject else sha256_hex (trim subject)))
unfolding subject_key
subject_key-eq-ok sha256_hex prefix label subject key hd h =
    elim (Result-cases (validate_key_part prefix)) [
      | inl (p, vp) ↦ elim (Result-cases (validate_key_part label)) [
        | inl (l, vl) ↦
            let (raw, written) =
              key_of_parts_lem sha256_hex p l (trim subject) key (part_plain prefix p vp)
                (part_plain label l vl) hd (trim-trim subject) (ground (arith, vp, vl)) in
            (p, l, raw, vp, vl, written)
        | inr (e, bad) ↦ absurd (ground (arith, vp, bad))
      ]
      | inr (e, bad) ↦ absurd (ground (arith, bad))
    ]

-- Requests with one key have the same prefix, label and subject, up to the white space around them,
-- where the digest writes no white space and does not collide on the two subjects.
pub subject_key-injective :
    (sha256_hex : Text → Text) (prefix prefix' label label' subject subject' key : Text)
    → any is_whitespace (sha256_hex (trim subject)) ≡ false
    → any is_whitespace (sha256_hex (trim subject')) ≡ false
    → (sha256_hex (trim subject) ≡ sha256_hex (trim subject') → trim subject ≡ trim subject')
    → subject_key sha256_hex prefix label subject ≡ ok key
    → subject_key sha256_hex prefix' label' subject' ≡ ok key
    → (validate_key_part prefix ≡ validate_key_part prefix')
      × (validate_key_part label ≡ validate_key_part label')
      × (trim subject ≡ trim subject')
subject_key-injective sha256_hex prefix prefix' label label' subject subject' key d d' no_collision
      h h' =
    let (p, l, raw, vp, vl, e) = subject_key-eq-ok sha256_hex prefix label subject key d h in
    let (p', l', raw', vp', vl', e') =
      subject_key-eq-ok sha256_hex prefix' label' subject' key d' h' in
    let (prefixes, labels, kinds, subjects) = text-injective p p' l l' raw raw' _ _ (sym e ∙ e') in
    (
      vp ∙ ap ok prefixes ∙ sym vp',
      vl ∙ ap ok labels ∙ sym vl',
      same_subject raw raw' (trim subject) (trim subject') (sha256_hex (trim subject))
          (sha256_hex (trim subject')) no_collision kinds subjects,
    )
