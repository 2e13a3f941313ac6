-- ===== src/Common/Equality.antt =====
-- Equality tests as an interface, with the instances that the model compares by.
use Prim.Native.Nat.{ℕ}
use Prim.Native.String.{String}
use mathlib.Core.Path.{◌≡◌, refl}
use mathlib.Core.Logic.{◌↔◌, inl, inr}
use mathlib.Core.Bool.{Bool, true, false}
use text.Mathlib.TextEquality.{eq_iff}
use text.Mathlib.Text.{◌==◌ as same_text}
use kapacity.Common.Tests.{eqb, eqb_iff, Bool-cases}

pub record Eq {ℓ} (A : Type ℓ) : Type ℓ where
  pub beq : A → A → Bool
  pub agrees : (x y : A) → (beq x y ≡ true) ↔ (x ≡ y)

instance abbrev pub nat_eq : Eq ℕ
nat_eq = record { beq = eqb; agrees = eqb_iff }

instance abbrev pub string_eq : Eq String
string_eq = record { beq = same_text; agrees = eq_iff }

-- A decision as a test.
abbrev pub dec_bool {ℓ} : {P : Type ℓ} → Dec P → Bool
dec_bool (yes p) = true
dec_bool (no n) = false

pub dec_bool_iff {ℓ} : {P : Type ℓ} (d : Dec P) → (dec_bool d ≡ true) ↔ P
dec_bool_iff (yes p) = (λ _. p, λ _. refl)
dec_bool_iff (no n) = (λ e. cc, λ p. absurd (n p))

-- Equality of any type whose equality is decided.
abbrev pub discrete_eq {ℓ} : {A : Type ℓ} → Discrete A → Eq A
discrete_eq d = record { beq = λ a b. dec_bool (d a b); agrees = λ a b. dec_bool_iff (d a b) }

pub String-discrete : Discrete String
String-discrete a b = elim (Bool-cases (same_text a b)) [
  | inl e ↦ yes ((eq_iff a b).0 e)
  | inr e ↦ no (λ p. cc ((eq_iff a b).1 p))
]

-- The test of the instance at hand.
infix 50 ◌==◌
abbrev pub ◌==◌ {ℓ} : {K : Type ℓ} ⦃test : Eq K⦄ → (x y : K) → Bool
◌==◌ ⦃test⦄ x y = test.beq x y
