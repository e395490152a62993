-- ===== src/Prelude/Equality.antt =====
-- `==` for the types that the program compares, as an interface with instances.
use Prim.Native.Nat.{ℕ}
use Prim.Native.String.{String}
use mathlib.Core.Path.{◌≡◌, refl}
use mathlib.Core.Logic.{◌↔◌}
use mathlib.Core.Bool.{Bool, true}
use text.Mathlib.Text.{◌==◌ as str_eq}
use text.Mathlib.TextEquality.{eq_iff}
use market_data_backend.Prelude.Tests.{nat_eq, nat_eq_iff}

-- A test of equality that answers `true` on equal values and on no others.
pub record Eq {ℓ} (A : Type ℓ) : Type ℓ where
  pub test : A → A → Bool
  pub sound : (x y : A) → test x y ≡ true → x ≡ y
  pub complete : (x y : A) → x ≡ y → test x y ≡ true

instance abbrev pub ℕ_eq : Eq ℕ
ℕ_eq = record {
  test = nat_eq;
  sound = λ x y. (nat_eq_iff x y).0;
  complete = λ x y. (nat_eq_iff x y).1;
}

instance abbrev pub String_eq : Eq String
String_eq = record {
  test = str_eq;
  sound = λ s t. (eq_iff s t).0;
  complete = λ s t. (eq_iff s t).1;
}

module _ {ℓ} {A : Type ℓ} ⦃e : Eq A⦄ where
  infix 50 ◌==◌
  abbrev pub ◌==◌ : A → A → Bool
  x == y = e.test x y

  pub eq_test_iff : (x y : A) → ((x == y) ≡ true) ↔ (x ≡ y)
  eq_test_iff x y = (e.sound x y, e.complete x y)

  pub eq_test_self : (x : A) → (x == x) ≡ true
  eq_test_self x = e.complete x x refl
