-- ===== src/IdempotencyRuntime/KeyLaws.antt =====
-- When the keys of the volatile stores are valid, and when two of them are the same.
use world_infra.Prelude.{
  ◌≤◌, ◌≡◌, refl, sym, ap, ◌∙◌, false, ◌||◌, Option, none, some, [], ◌∷◌, ◌++◌, arith, any, ok,
  Result-cases, append_assoc,
}
use world_infra.Text.{Text, codes, byte_length, is_control, is_whitespace, trim, is_empty}
use world_infra.Text.Decimal.{decimal, IsDigit, decimal_prefix_injective}
use world_infra.Text.Laws.{append_injective}
use world_infra.IdempotencyRuntime.Keys.{
  IdempotencyKeyFormat, IdempotencyNamespace, length_prefixed, namespace_prefix, validate_part,
  new_namespace, format_key, namespaced_key,
}

-- A part that the validation lets through.
pub record IsPart (value part : Text) : Type 0 where
  pub trimmed : part ≡ trim value
  pub filled : is_empty part ≡ false
  pub bounded : byte_length part ≤ 512
  pub plain : any (λ ch. is_control ch || is_whitespace ch) part ≡ false

pub validate_part-IsPart : (value part : Text) → validate_part value ≡ ok part → IsPart value part
unfolding validate_part
validate_part-IsPart value part h = ground arith

-- A namespace that `IdempotencyNamespace::new` has made, or none.
abbrev pub IsMade : Option IdempotencyNamespace → Type 0
IsMade none = Unit
IsMade (some n) = (value : Text) × (new_namespace value ≡ ok n)

made-filled : (n : IdempotencyNamespace) → IsMade (some n) → is_empty n.value ≡ false
unfolding new_namespace
made-filled n (value, made) =
    let e : validate_part value ≡ ok n.value = ground (arith, Result-cases (validate_part value)) in
    (validate_part-IsPart value n.value e).filled

-- The text of a namespace; a store that has none writes the length 0.
abbrev text_of : Option IdempotencyNamespace → Text
text_of none = []
text_of (some n) = n.value

format_key_lem :
    (o : Option IdempotencyNamespace) (k : Text)
    → format_key length_prefixed o k
      ≡ codes "idem:"
        ++ (decimal (byte_length (text_of o))
            ++ b':' ∷ (text_of o ++ b':' ∷ (decimal (byte_length k) ++ b':' ∷ k)))
unfolding format_key
format_key_lem none k = unfold decimal in refl
format_key_lem (some n) k = refl

colon_is_no-IsDigit : ¬ IsDigit b':'
colon_is_no-IsDigit h = omega arith

texts-injective :
    (s t k j : Text)
    → decimal (byte_length s) ++ b':' ∷ (s ++ b':' ∷ (decimal (byte_length k) ++ b':' ∷ k))
      ≡ decimal (byte_length t) ++ b':' ∷ (t ++ b':' ∷ (decimal (byte_length j) ++ b':' ∷ j))
    → (s ≡ t) × (k ≡ j)
texts-injective s t k j e =
    let (lengths, rest) =
      decimal_prefix_injective b':' (byte_length s) (byte_length t) _ _ colon_is_no-IsDigit e in
    let (same, tails) = append_injective s t _ _ lengths rest in
    (
      same,
      (decimal_prefix_injective b':' (byte_length k) (byte_length j) k j colon_is_no-IsDigit
          (cc tails)).1,
    )

text_of-injective :
    (o p : Option IdempotencyNamespace) → IsMade o → IsMade p → text_of o ≡ text_of p → o ≡ p
text_of-injective none none h k e = refl
text_of-injective (some n) (some m) h k e = λ i. some (record { value = e i })
text_of-injective none (some m) h k e = ground (arith, made-filled m k)
text_of-injective (some n) none h k e = ground (arith, made-filled n h)

format_key-injective :
    (o p : Option IdempotencyNamespace) (k j : Text)
    → IsMade o
    → IsMade p
    → format_key length_prefixed o k ≡ format_key length_prefixed p j
    → (o ≡ p) × (k ≡ j)
format_key-injective o p k j h h' e =
    let (texts, keys) =
      texts-injective (text_of o) (text_of p) k j
        (cc (format_key_lem o k, format_key_lem p j, e)) in
    (text_of-injective o p h h' texts, keys)

namespaced_key-eq-ok :
    (o : Option IdempotencyNamespace) (k : Text) (f : IdempotencyKeyFormat) (r : Text)
    → namespaced_key o k f ≡ ok r
    → (part : Text) × (validate_part k ≡ ok part) × (r ≡ format_key f o part)
unfolding namespaced_key
namespaced_key-eq-ok o k f r h = ground arith

-- Length-prefixed keys are unambiguous: if two requests reach one entry of the store, they have
-- the same namespace, as `IdempotencyNamespace::new` makes it, or both none, and the same key up
-- to the trimming of the validation.
pub namespaced_key-injective :
    (o p : Option IdempotencyNamespace) (k j r : Text)
    → IsMade o
    → IsMade p
    → namespaced_key o k length_prefixed ≡ ok r
    → namespaced_key p j length_prefixed ≡ ok r
    → (o ≡ p) × (validate_part k ≡ validate_part j)
namespaced_key-injective o p k j r h h' e e' =
    let (a, va, ra) = namespaced_key-eq-ok o k length_prefixed r e in
    let (b, vb, rb) = namespaced_key-eq-ok p j length_prefixed r e' in
    let (same, keys) = format_key-injective o p a b h h' (sym ra ∙ rb) in
    (same, va ∙ ap ok keys ∙ sym vb)

-- The legacy format is not: for keys that the validation leaves as they are, a colon in the
-- namespace or in the key makes two requests of different namespaces reach one entry.
pub namespace_prefix_ambiguous :
    (a b c : Text)
    → validate_part c ≡ ok c
    → validate_part (b ++ b':' ∷ c) ≡ ok (b ++ b':' ∷ c)
    → namespaced_key (some (record { value = a ++ b':' ∷ b })) c namespace_prefix
      ≡ namespaced_key (some (record { value = a })) (b ++ b':' ∷ c) namespace_prefix
unfolding namespaced_key format_key
namespace_prefix_ambiguous a b c h h' = rw (h, h') (ap ok (append_assoc a (b':' ∷ b) (b':' ∷ c)))
