-- ===== src/Prelude/Errors.antt =====
-- A Go call that returns a value or an error.
use mathlib.Core.Path.{◌≡◌, refl, ap}
use mathlib.Core.Logic.{◌⊎◌, inl, inr}
use mathlib.Core.Bool.{Bool, true, false}

pub data Result {ℓ κ} (E : Type ℓ) (A : Type κ) : Type (ℓ ⊔ κ) where
  ok : A → Result E A
  err : E → Result E A

module _ {ℓ κ μ} {E : Type ℓ} {A : Type κ} {B : Type μ} where
  -- `v, err := m; if err != nil { return err }`.
  infixl 5 ◌>>=◌
  abbrev pub ◌>>=◌ : Result E A → (A → Result E B) → Result E B
  m >>= next = elim m [ err e ↦ err e | ok v ↦ next v ]

  pub bind_ok : (m : Result E A) (next : A → Result E B) (a : A) → m ≡ ok a → (m >>= next) ≡ next a
  bind_ok m next a h = ap (λ r. r >>= next) h

  -- What a chain returns, its first call has returned before.
  pub bind_cases :
      (m : Result E A) (next : A → Result E B) (b : B)
      → (m >>= next) ≡ ok b
      → (a : A) × (m ≡ ok a) × (next a ≡ ok b)
  bind_cases (ok a) next b h = (a, refl, h)
  bind_cases (err e) next b h = absurd (cc h)

-- `if err := check; err != nil { return err }`.
infixr 5 ◌>>◌
abbrev pub ◌>>◌ {ℓ μ} : {E : Type ℓ} {B : Type μ} → Result E (Unit {0}) → Result E B → Result E B
check >> next = check >>= λ _. next

-- `if !test { return e }`.
abbrev pub guard {ℓ} : {E : Type ℓ} → Bool → E → Result E (Unit {0})
guard test e = elim test [ false ↦ err e | true ↦ ok tt ]

pub Result-cases {ℓ κ} :
    {E : Type ℓ} {A : Type κ} (r : Result E A) → ((a : A) × (r ≡ ok a)) ⊎ ((e : E) × (r ≡ err e))
Result-cases (ok a) = inl (a, refl)
Result-cases (err e) = inr (e, refl)
