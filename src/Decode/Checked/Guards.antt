-- ===== src/Decode/Checked/Guards.antt =====
-- Checks in a row that all passed.
use market_data_backend.Prelude.{
  Bool, true, false, Result, ok, err, ◌>>=◌, ◌>>◌, guard, ◌≡◌, refl, ap, ◌&&◌,
}

module _ {ℓ μ} {E : Type ℓ} {B : Type μ} where
  -- A check that passed, and what came after it.
  pub check_passed :
      (check : Result E (Unit {0})) (next : Result E B) (b : B)
      → (check >> next) ≡ ok b
      → (check ≡ ok tt) × (next ≡ ok b)
  check_passed (ok u) next b h = (refl, h)
  check_passed (err e) next b h = absurd (cc h)

  pub guard_passed :
      (test : Bool) (e : E) (next : Result E B) (b : B)
      → (guard test e >> next) ≡ ok b
      → (test ≡ true) × (next ≡ ok b)
  guard_passed true e next b h = (refl, h)
  guard_passed false e next b h = absurd (cc h)

pub bind_passed {ℓ κ μ} :
    {E : Type ℓ} {A : Type κ} {B : Type μ} (m : Result E A) (next : A → Result E B) (b : B)
    → (m >>= next) ≡ ok b
    → (a : A) × (m ≡ ok a) × (next a ≡ ok b)
bind_passed (ok a) next b h = (a, refl, h)
bind_passed (err e) next b h = absurd (cc h)

pub both_true : (a b : Bool) → (a && b) ≡ true → (a ≡ true) × (b ≡ true)
both_true true b h = (refl, h)
both_true false b h = absurd (cc h)

pub guard_held {ℓ} : {E : Type ℓ} (test : Bool) (e : E) → guard test e ≡ ok tt → test ≡ true
guard_held true e h = refl
guard_held false e h = absurd (cc h)

abbrev ok_or {ℓ κ} : {E : Type ℓ} {A : Type κ} → A → Result E A → A
ok_or d (ok x) = x
ok_or d (err e) = d

pub ok-injective {ℓ κ} :
    {E : Type ℓ} {A : Type κ} {a b : A} → ◌≡◌ {A = Result E A} (ok a) (ok b) → a ≡ b
ok-injective {a = a} h = ap (ok_or a) h
