-- ===== src/Map/Laws.antt =====
-- The laws of the map's operations, in terms of `get`.
use world_infra.Prelude.{
  ◌≡◌, refl, Bool, true, none, some, List, [], ◌∷◌, arith, inl, inr, Bool-cases, if◌then◌else◌,
  subst,
}
use world_infra.Map.{Eq, get, remove, insert, retain, Distinct, AllValues, keep_if}

pub beq_refl {ℓ} : {K : Type ℓ} ⦃e : Eq K⦄ (k : K) → e.beq k k ≡ true
beq_refl ⦃e⦄ k = (e.beq_iff k k).1 refl

module _ {ℓ κ} {K : Type ℓ} ⦃e : Eq K⦄ {V : Type κ} where
  pub get-remove :
      (j k : K) (m : List (K × V)) → get j (remove k m) ≡ (if e.beq k j then none else get j m)
  unfolding get remove
  get-remove j k [] = ground arith
  get-remove j k ((i, v) ∷ m) =
      ground (arith, e.beq_iff k j, e.beq_iff i k, e.beq_iff i j, get-remove j k m)

  pub get-insert :
      (j k : K) (v : V) (m : List (K × V))
      → get j (insert k v m) ≡ (if e.beq k j then some v else get j m)
  unfolding get insert
  get-insert j k v m = ground (arith, get-remove j k m)

  pub remove-Distinct : (k : K) (m : List (K × V)) → Distinct m → Distinct (remove k m)
  unfolding remove
  remove-Distinct k [] d = tt
  remove-Distinct k ((i, v) ∷ m) d = ground (arith, remove-Distinct k m d.1, get-remove i k m)

  pub insert-Distinct : (k : K) (v : V) (m : List (K × V)) → Distinct m → Distinct (insert k v m)
  unfolding insert
  insert-Distinct k v m d = (ground (arith, get-remove k k m, beq_refl k), remove-Distinct k m d)

  pub get-retain-none :
      (p : V → Bool) (k : K) (m : List (K × V)) → get k m ≡ none → get k (retain p m) ≡ none
  unfolding get retain
  get-retain-none p k [] h = refl
  get-retain-none p k ((i, v) ∷ m) h = ground (arith, get-retain-none p k m)

  pub retain-Distinct : (p : V → Bool) (m : List (K × V)) → Distinct m → Distinct (retain p m)
  unfolding retain
  retain-Distinct p [] d = tt
  retain-Distinct p ((i, v) ∷ m) d =
      ground (arith, retain-Distinct p m d.1, get-retain-none p i m d.0)

  pub get-retain :
      (p : V → Bool) (k : K) (m : List (K × V))
      → Distinct m
      → get k (retain p m) ≡ keep_if p (get k m)
  unfolding get retain
  get-retain p k [] d = refl
  get-retain p k ((i, v) ∷ m) d =
      ground (
        arith,
        e.beq_iff i k,
        get-retain p k m d.1,
        get-retain-none p k m,
        get-retain-none p i m d.0,
      )

  module _ {μ} (P : V → Type μ) where
    pub remove-AllValues : (k : K) (m : List (K × V)) → AllValues P m → AllValues P (remove k m)
    unfolding remove
    remove-AllValues k [] h = tt
    remove-AllValues k ((i, v) ∷ m) h = elim (Bool-cases (e.beq i k)) [
      | inl same ↦ rw same (remove-AllValues k m h.1)
      | inr other ↦ rw other (h.0, remove-AllValues k m h.1)
    ]

    pub insert-AllValues :
        (k : K) (v : V) (m : List (K × V)) → P v → AllValues P m → AllValues P (insert k v m)
    unfolding insert
    insert-AllValues k v m p h = (p, remove-AllValues k m h)

    pub retain-AllValues :
        (p : V → Bool) (m : List (K × V)) → AllValues P m → AllValues P (retain p m)
    unfolding retain
    retain-AllValues p [] h = tt
    retain-AllValues p ((i, v) ∷ m) h = elim (Bool-cases (p v)) [
      | inl kept ↦ rw kept (h.0, retain-AllValues p m h.1)
      | inr dropped ↦ rw dropped (retain-AllValues p m h.1)
    ]

    pub get-AllValues : (k : K) (m : List (K × V)) {v : V} → AllValues P m → get k m ≡ some v → P v
    unfolding get
    get-AllValues k [] h g = cc
    get-AllValues k ((i, w) ∷ m) {v} h g = elim (Bool-cases (e.beq i k)) [
      | inl same ↦ subst P (ground arith) h.0
      | inr other ↦ get-AllValues k m h.1 (ground arith)
    ]
