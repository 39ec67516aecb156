-- ===== src/Map.antt =====
-- `HashMap<K, V>` as an association list. Its order is not observable in the program: entries are
-- reached by key, filtered, counted, or folded by a minimum. An insertion replaces the key's entry.
pub mod Laws
use world_infra.Prelude.{
  ◌≡◌, ◌↔◌, Bool, true, Option, none, some, List, [], ◌∷◌, if◌then◌else◌, ◌&&◌,
}
use world_infra.Text.{Text, text_eq}
use world_infra.Text.Laws.{text_eq_iff}

-- `K: Eq`, whose test decides equality.
pub record Eq {ℓ} (K : Type ℓ) : Type ℓ where
  pub beq : K → K → Bool
  pub beq_iff : (a b : K) → (beq a b ≡ true) ↔ (a ≡ b)

instance abbrev pub text_key : Eq Text
text_key = record { beq = text_eq; beq_iff = text_eq_iff }

module _ {ℓ κ} {K : Type ℓ} ⦃e : Eq K⦄ {V : Type κ} where
  unfoldable pub get : K → List (K × V) → Option V
  get k [] = none
  get k ((j, v) ∷ m) = if e.beq j k then some v else get k m

  unfoldable pub remove : K → List (K × V) → List (K × V)
  remove k [] = []
  remove k ((j, v) ∷ m) = if e.beq j k then remove k m else (j, v) ∷ remove k m

  unfoldable pub insert : K → V → List (K × V) → List (K × V)
  unfolding remove
  insert k v m = (k, v) ∷ remove k m

  -- `retain(|_, v| keep(v))`
  unfoldable pub retain : (V → Bool) → List (K × V) → List (K × V)
  retain keep [] = []
  retain keep ((j, v) ∷ m) = if keep v then (j, v) ∷ retain keep m else retain keep m

-- No key has two entries, as in every `HashMap`.
abbrev pub Distinct {ℓ κ} : {K : Type ℓ} ⦃e : Eq K⦄ {V : Type κ} → List (K × V) → Type κ
Distinct [] = Unit
Distinct ((k, v) ∷ m) = (get k m ≡ none) × Distinct m

-- Every value of the map has a property.
abbrev pub AllValues {ℓ κ μ} : {K : Type ℓ} {V : Type κ} → (V → Type μ) → List (K × V) → Type μ
AllValues P [] = Unit
AllValues P ((k, v) ∷ m) = P v × AllValues P m

abbrev pub keep_if {ℓ} : {V : Type ℓ} → (V → Bool) → Option V → Option V
keep_if p none = none
keep_if p (some v) = if p v then some v else none
