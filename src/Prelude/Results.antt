-- ===== src/Prelude/Results.antt =====
-- `Result<A, E>`, with the `?` operator as `>>=`.
use mathlib.Core.Path.{◌≡◌, refl, sym, subst}
use mathlib.Core.Bool.{Bool, true, false}
use mathlib.Core.Option.{Option, none, some}
use world_infra.Prelude.Tests.{if◌then◌else◌}
use mathlib.Core.Logic.{◌⊎◌, inl, inr}

pub data Result {ℓ κ} (E : Type ℓ) (A : Type κ) : Type (ℓ ⊔ κ) where
  ok : A → Result E A
  err : E → Result E A

infixl 5 ◌>>=◌ ◌>>◌
abbrev pub ◌>>=◌ {ℓ κ μ} :
    {E : Type ℓ} {A : Type κ} {B : Type μ} → Result E A → (A → Result E B) → Result E B
ok a >>= f = f a
err e >>= f = err e

abbrev pub ◌>>◌ {ℓ κ} : {E : Type ℓ} {B : Type κ} → Result E (Unit {0}) → Result E B → Result E B
m >> k = m >>= λ _. k

-- `if refused { return Err(e) }`
abbrev pub fail_if {ℓ} : {E : Type ℓ} → Bool → E → Result E (Unit {0})
fail_if true e = err e
fail_if false e = ok tt

-- `Result::map_err`
abbrev pub map_err {ℓ κ μ} :
    {E : Type ℓ} {F : Type κ} {A : Type μ} → (E → F) → Result E A → Result F A
map_err f (ok a) = ok a
map_err f (err e) = err (f e)

-- `Option::ok_or`
abbrev pub ok_or {ℓ κ} : {E : Type ℓ} {A : Type κ} → Option A → E → Result E A
ok_or none e = err e
ok_or (some a) e = ok a

pub Result-cases {ℓ κ} :
    {E : Type ℓ} {A : Type κ} (r : Result E A) → ((a : A) × (r ≡ ok a)) ⊎ ((e : E) × (r ≡ err e))
Result-cases (ok a) = inl (a, refl)
Result-cases (err e) = inr (e, refl)

pub ok_injective {ℓ κ} :
    {E : Type ℓ} {A : Type κ} (a b : A) → (x : Result E A) → x ≡ ok a → x ≡ ok b → a ≡ b
ok_injective a b x h k = cc

-- A chain that gives a value gives one at its first step.
pub bind-ok {ℓ κ μ} :
    {E : Type ℓ} {A : Type κ} {B : Type μ} (m : Result E A) (f : A → Result E B) (b : B)
    → (m >>= f) ≡ ok b
    → (a : A) × (m ≡ ok a) × (f a ≡ ok b)
bind-ok (ok a) f b h = (a, refl, h)
bind-ok (err e) f b h = cc

pub ok_or-ok {ℓ κ} :
    {E : Type ℓ} {A : Type κ} (value : Option A) (e : E) (a : A)
    → ok_or value e ≡ ok a
    → value ≡ some a
ok_or-ok none e a h = cc
ok_or-ok (some b) e a h = cc

-- A guarded chain that gives a value has passed the guard.
pub guard-ok {ℓ κ} :
    {E : Type ℓ} {B : Type κ} (refused : Bool) (e : E) (m : Result E B) (b : B)
    → (fail_if refused e >> m) ≡ ok b
    → (refused ≡ false) × (m ≡ ok b)
guard-ok true e m b h = cc
guard-ok false e m b h = (refl, h)

pub then-ok {ℓ κ} :
    {E : Type ℓ} {B : Type κ} (m : Result E (Unit {0})) (k : Result E B) (b : B)
    → (m >> k) ≡ ok b
    → (m ≡ ok tt) × (k ≡ ok b)
then-ok (ok u) k b h = (refl, h)
then-ok (err e) k b h = cc

-- A property of the value, if there is one, from step to step of a chain.
unfoldable pub IfOk {ℓ κ μ} : {E : Type ℓ} {A : Type κ} → (A → Type μ) → Result E A → Type μ
IfOk P (ok a) = P a
IfOk P (err e) = Unit

module _ {ℓ κ μ} {E : Type ℓ} {A : Type κ} (P : A → Type μ) where
  pub IfOk-of : (m : Result E A) (a : A) → m ≡ ok a → P a → IfOk P m
  unfolding IfOk
  IfOk-of m a e h = subst (IfOk P) (sym e) h

  pub IfOk-err : (e : E) → IfOk P (err e)
  unfolding IfOk
  IfOk-err e = tt

  pub IfOk-bind {ν} :
      {B : Type ν} (m : Result E B) (f : B → Result E A)
      → ((b : B) → m ≡ ok b → IfOk P (f b))
      → IfOk P (m >>= f)
  unfolding IfOk
  IfOk-bind (ok b) f h = h b refl
  IfOk-bind (err e) f h = tt

  pub IfOk-guard :
      (refused : Bool) (e : E) (m : Result E A)
      → (refused ≡ false → IfOk P m)
      → IfOk P (fail_if refused e >> m)
  unfolding IfOk
  IfOk-guard true e m h = tt
  IfOk-guard false e m h = h refl

  pub IfOk-if :
      (test : Bool) (m n : Result E A) → IfOk P m → IfOk P n → IfOk P (if test then m else n)
  IfOk-if true m n h k = h
  IfOk-if false m n h k = k

  pub IfOk-ok : (m : Result E A) (a : A) → IfOk P m → m ≡ ok a → P a
  unfolding IfOk
  IfOk-ok m a h e = subst (IfOk P) e h
