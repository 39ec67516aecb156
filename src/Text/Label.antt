-- ===== src/Text/Label.antt =====
-- The check that several crates make of a label: no control character, something left after trimming,
-- a bounded length, and characters of one class. The parameters are the errors, the bound and the
-- class.
use world_infra.Prelude.{
  ℕ, ◌≡◌, refl, subst, ◌≤◌, ltb, ltb→le, Bool, true, false, not, Option, none, some, any, all,
  any-not, [], ◌∷◌, Result, ok, err, fail_if, ◌>>◌, guard-ok, Bool-cases, inl, inr, arith,
}
use world_infra.Text.{Text, byte_length, is_control, trim, is_empty}
use world_infra.Text.Laws.{any-trim, trim-trim}
use world_infra.Text.Scan.{find}

-- `if let Some(ch) = found { return Err(e(ch)) }`
abbrev pub refuse {ℓ} : {E : Type ℓ} → Option ℕ → (ℕ → E) → Result E (Unit {0})
refuse none e = ok tt
refuse (some ch) e = err (e ch)

find-any : (p : ℕ → Bool) (s : Text) → any p s ≡ false → find p s ≡ none
find-any p [] h = refl
find-any p (c ∷ s) h = ground (arith, find-any p s)

refuse-ok {ℓ κ} :
    {E : Type ℓ} {B : Type κ} (p : ℕ → Bool) (s : Text) (e : ℕ → E) (m : Result E B) (b : B)
    → (refuse (find p s) e >> m) ≡ ok b
    → (any p s ≡ false) × (m ≡ ok b)
refuse-ok p [] e m b h = (refl, h)
refuse-ok p (c ∷ s) e m b h = elim (Bool-cases (p c)) [
  | inl bad ↦ ground (arith, bad)
  | inr good ↦ ground (arith, good, refuse-ok p s e m b)
]

module _ {ℓ} {E : Type ℓ} (invalid_character : ℕ → E) (empty : E) (too_long : ℕ → E) (max : ℕ)
    (allowed : ℕ → Bool) where
  unfoldable pub validated : Text → Result E Text
  validated value = do
    refuse (find is_control value) invalid_character
    let value = trim value
    fail_if (is_empty value) empty
    fail_if (ltb max (byte_length value)) (too_long (byte_length value))
    refuse (find (λ ch. not (allowed ch)) value) invalid_character
    ok value

  -- A label that the check gives: trimmed, not empty, short enough, of the class, and its own label.
  pub record IsLabel (value out : Text) : Type ℓ where
    pub trimmed : out ≡ trim value
    pub solid : is_empty out ≡ false
    pub short : byte_length out ≤ max
    pub classed : all allowed out ≡ true
    pub stable : validated out ≡ ok out

  pub validated-IsLabel : (value out : Text) → validated value ≡ ok out → IsLabel value out
  unfolding validated
  validated-IsLabel value out h =
      let t = trim value in
      let (tame, h1) = refuse-ok is_control value invalid_character _ out h in
      let (solid, h2) = guard-ok (is_empty t) empty _ out h1 in
      let (short, h3) = guard-ok (ltb max (byte_length t)) (too_long (byte_length t)) _ out h2 in
      let (classed, h4) = refuse-ok (λ ch. not (allowed ch)) t invalid_character (ok t) out h3 in
      let same : t ≡ out = cc in
      subst (IsLabel value) same (record {
        trimmed = refl;
        solid = solid;
        short = ltb→le max (byte_length t) short;
        classed = any-not allowed t classed;
        stable =
            rw
              (
                find-any is_control t (any-trim is_control value tame),
                trim-trim value,
                solid,
                short,
                find-any (λ ch. not (allowed ch)) t classed,
              )
              refl;
      })
