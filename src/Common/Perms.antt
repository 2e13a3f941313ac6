-- ===== src/Common/Perms.antt =====
-- What a permutation keeps of a list that stands for a set.
use Prim.Native.Nat.{ℕ, ◌+◌}
use mathlib.Core.Path.{◌≡◌, refl, ◌∙◌, subst}
use mathlib.Core.Bool.{Bool, true, ◌||◌, ◌&&◌}
use mathlib.Core.List.{List, [], ◌∷◌, Perm, Permᴰ}
use mathlib.Core.Logic.{∥∥₁_elim}
use native.Mathlib.Omega.{arith}
use kapacity.Common.Lists.{length, All}
use kapacity.Common.Tests.{bit}
use kapacity.Common.Equality.{Eq}
use kapacity.Common.Sets.{has, Distinct}

and_swap : (a b c : Bool) → (a && (b && c)) ≡ (b && (a && c))
and_swap a b c = ground arith

or_swap : (a b c : Bool) → (a || (b || c)) ≡ (b || (a || c))
or_swap a b c = ground arith

module _ {ℓ} {A : Type ℓ} where
  pub length-permᴰ : {xs ys : List A} → Permᴰ xs ys → length xs ≡ length ys
  length-permᴰ Permᴰ.nil = refl
  length-permᴰ (Permᴰ.cons e p) = omega (arith, length-permᴰ p)
  length-permᴰ (Permᴰ.swap e e') = refl
  length-permᴰ (Permᴰ.trans p q) = length-permᴰ p ∙ length-permᴰ q

  pub length-perm : {xs ys : List A} → Perm xs ys → length xs ≡ length ys
  length-perm p = ∥∥₁_elim p (hlevel) length-permᴰ

  -- Whether all elements pass a test.
  abbrev pub every : (A → Bool) → List A → Bool
  every p [] = true
  every p (x ∷ xs) = p x && every p xs

  every-permᴰ : (p : A → Bool) {xs ys : List A} → Permᴰ xs ys → every p xs ≡ every p ys
  every-permᴰ p Permᴰ.nil = refl
  every-permᴰ p (Permᴰ.cons e d) = rw (e, every-permᴰ p d)
  every-permᴰ p (Permᴰ.swap {a = a} {b = b} {l = l} e e') = rw (e, e') (and_swap _ _ (every p l))
  every-permᴰ p (Permᴰ.trans d d') = every-permᴰ p d ∙ every-permᴰ p d'

  pub every-perm : (p : A → Bool) {xs ys : List A} → Perm xs ys → every p xs ≡ every p ys
  every-perm p d = ∥∥₁_elim d (hlevel) (every-permᴰ p)

module _ {ℓ} {A : Type ℓ} ⦃e : Eq A⦄ where
  pub has-permᴰ : (a : A) {xs ys : List A} → Permᴰ xs ys → has a xs ≡ has a ys
  unfolding has
  has-permᴰ a Permᴰ.nil = refl
  has-permᴰ a (Permᴰ.cons q d) = rw (q, has-permᴰ a d)
  has-permᴰ a (Permᴰ.swap {l = l} q q') = rw (q, q') (or_swap _ _ (has a l))
  has-permᴰ a (Permᴰ.trans d d') = has-permᴰ a d ∙ has-permᴰ a d'

  pub has-perm : (a : A) {xs ys : List A} → Perm xs ys → has a xs ≡ has a ys
  has-perm a d = ∥∥₁_elim d (hlevel) (has-permᴰ a)

  Distinct-swap : (a b : A) (l : List A) → Distinct (a ∷ b ∷ l) → Distinct (b ∷ a ∷ l)
  unfolding has
  Distinct-swap a b l h = ground (arith, e.agrees a b, e.agrees b a)

  Distinct-permᴰ : {xs ys : List A} → Permᴰ xs ys → Distinct xs → Distinct ys
  Distinct-permᴰ Permᴰ.nil h = h
  Distinct-permᴰ (Permᴰ.cons q d) h = (rw (← q, ← has-permᴰ _ d) h.0, Distinct-permᴰ d h.1)
  Distinct-permᴰ (Permᴰ.swap {a = a} {b = b} {l = l} q q') h =
      rw (← q, ← q') (Distinct-swap a b l h)
  Distinct-permᴰ (Permᴰ.trans d d') h = Distinct-permᴰ d' (Distinct-permᴰ d h)

  Distinct-prop : (xs : List A) → IsProp (Distinct xs)
  Distinct-prop [] = hlevel
  Distinct-prop (x ∷ xs) = hlevel (Distinct-prop xs)

  pub Distinct-perm : {xs ys : List A} → Perm xs ys → Distinct xs → Distinct ys
  Distinct-perm {xs} {ys} d h = ∥∥₁_elim d (Distinct-prop ys) (λ q. Distinct-permᴰ q h)

module _ {ℓ κ} {A : Type ℓ} (Q : A → Type κ) where
  pub All-permᴰ : {xs ys : List A} → Permᴰ xs ys → All Q xs → All Q ys
  All-permᴰ Permᴰ.nil h = h
  All-permᴰ (Permᴰ.cons e d) h = (subst Q e h.0, All-permᴰ d h.1)
  All-permᴰ (Permᴰ.swap e e') h = (subst Q e' h.1.0, (subst Q e h.0, h.1.1))
  All-permᴰ (Permᴰ.trans d d') h = All-permᴰ d' (All-permᴰ d h)

module _ {ℓ} {A : Type ℓ} where
  -- How many elements pass a test.
  abbrev pub count : (A → Bool) → List A → ℕ
  count p [] = 0
  count p (x ∷ xs) = bit (p x) + count p xs

  pub count-permᴰ : (p : A → Bool) {xs ys : List A} → Permᴰ xs ys → count p xs ≡ count p ys
  count-permᴰ p Permᴰ.nil = refl
  count-permᴰ p (Permᴰ.cons e d) = rw e (omega (arith, count-permᴰ p d))
  count-permᴰ p (Permᴰ.swap {a = a} {b = b} {l = l} e e') = rw (e, e') (omega arith)
  count-permᴰ p (Permᴰ.trans d d') = count-permᴰ p d ∙ count-permᴰ p d'
