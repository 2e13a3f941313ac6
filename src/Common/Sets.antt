-- ===== src/Common/Sets.antt =====
-- sets.String of k8s.io/apimachinery as a list without repetition: insert, delete, union,
-- difference, and the membership and size laws that the clients use.
use Prim.Native.Nat.{◌+◌, ◌≤◌}
use mathlib.Core.Path.{◌≡◌, refl}
use mathlib.Core.Bool.{Bool, true, false, not, ◌&&◌, ◌||◌}
use mathlib.Core.List.{List, [], ◌∷◌, ◌++◌}
use native.Mathlib.Omega.{arith}
use kapacity.Common.Tests.{if◌then◌else◌, bit}
use kapacity.Common.Lists.{length, select}
use kapacity.Common.Equality.{Eq, ◌==◌}

module _ {ℓ} {A : Type ℓ} ⦃e : Eq A⦄ where
  unfoldable pub has : A → List A → Bool
  has a [] = false
  has a (x ∷ xs) = a == x || has a xs

  unfoldable pub insert : A → List A → List A
  unfolding has
  insert a xs = if has a xs then xs else a ∷ xs

  unfoldable pub delete : A → List A → List A
  delete a [] = []
  delete a (x ∷ xs) = if a == x then delete a xs else x ∷ delete a xs

  -- `s.Union(t)`
  unfoldable pub union : List A → List A → List A
  unfolding insert
  union xs [] = xs
  union xs (y ∷ ys) = insert y (union xs ys)

  -- `s.Difference(t)`
  unfoldable pub difference : List A → List A → List A
  unfolding has
  difference xs ys = select (λ x. not (has x ys)) xs

  abbrev pub Distinct : List A → Type 0
  Distinct [] = Unit
  Distinct (x ∷ xs) = (has x xs ≡ false) × Distinct xs

  pub beq_self : (a : A) → (a == a) ≡ true
  beq_self a = (e.agrees a a).1 refl

  pub has-insert : (b a : A) (xs : List A) → has b (insert a xs) ≡ (b == a || has b xs)
  unfolding has insert
  has-insert b a xs = ground (arith, e.agrees b a)

  pub has-delete : (b a : A) (xs : List A) → has b (delete a xs) ≡ (not (b == a) && has b xs)
  unfolding has delete
  has-delete b a [] = ground arith
  has-delete b a (x ∷ xs) =
      ground (arith, has-delete b a xs, e.agrees a x, e.agrees b x, e.agrees b a)

  pub has-union : (b : A) (xs ys : List A) → has b (union xs ys) ≡ (has b xs || has b ys)
  unfolding has union
  has-union b xs [] = ground arith
  has-union b xs (y ∷ ys) = ground (arith, has-insert b y (union xs ys), has-union b xs ys)

  pub insert-Distinct : (a : A) (xs : List A) → Distinct xs → Distinct (insert a xs)
  unfolding insert
  insert-Distinct a xs d = ground arith

  pub delete-Distinct : (a : A) (xs : List A) → Distinct xs → Distinct (delete a xs)
  unfolding delete
  delete-Distinct a [] d = tt
  delete-Distinct a (x ∷ xs) d = ground (arith, delete-Distinct a xs d.1, has-delete x a xs)

  pub union-Distinct : (xs ys : List A) → Distinct xs → Distinct (union xs ys)
  unfolding union
  union-Distinct xs [] d = d
  union-Distinct xs (y ∷ ys) d = insert-Distinct y (union xs ys) (union-Distinct xs ys d)

  pub length-insert :
      (a : A) (xs : List A) → length (insert a xs) ≡ length xs + bit (not (has a xs))
  unfolding insert
  length-insert a xs = ground arith

  delete_absent : (a : A) (xs : List A) → has a xs ≡ false → length (delete a xs) ≡ length xs
  unfolding has delete
  delete_absent a [] h = refl
  delete_absent a (x ∷ xs) h = ground (arith, delete_absent a xs)

  pub length-delete :
      (a : A) (xs : List A) → Distinct xs → length (delete a xs) + bit (has a xs) ≡ length xs
  unfolding has delete
  length-delete a [] d = refl
  length-delete a (x ∷ xs) d =
      ground (arith, length-delete a xs d.1, delete_absent a xs, e.agrees a x)

  pub has-difference :
      (b : A) (xs ys : List A) → has b (difference xs ys) ≡ (has b xs && not (has b ys))
  unfolding has difference
  has-difference b [] ys = refl
  has-difference b (x ∷ xs) ys = ground (arith, has-difference b xs ys, e.agrees b x)

  -- The union of two disjoint sets.
  pub length-union :
      (xs ys : List A)
      → Distinct ys
      → ((a : A) → bit (has a xs) + bit (has a ys) ≤ 1)
      → length (union xs ys) ≡ length xs + length ys
  unfolding union has
  length-union xs [] d apart = omega arith
  length-union xs (y ∷ ys) d apart = ground (
    arith,
    length-insert y (union xs ys),
    has-union y xs ys,
    apart y,
    beq_self y,
    length-union xs ys d.1 (λ a. apart_tail a (apart a)),
  )
    where
      apart_tail :
          (a : A) → bit (has a xs) + bit (has a (y ∷ ys)) ≤ 1 → bit (has a xs) + bit (has a ys) ≤ 1
      apart_tail a h = ground arith

  pub has-append : (b : A) (xs ys : List A) → has b (xs ++ ys) ≡ (has b xs || has b ys)
  unfolding has
  has-append b [] ys = refl
  has-append b (x ∷ xs) ys = ground (arith, has-append b xs ys)

  -- The two halves of a list without repetition are without, and have nothing in common.
  pub Distinct-split :
      (xs ys : List A)
      → Distinct (xs ++ ys)
      → Distinct xs × Distinct ys × ((a : A) → bit (has a xs) + bit (has a ys) ≤ 1)
  unfolding has
  Distinct-split [] ys d = (tt, d, λ a. ground arith)
  Distinct-split (x ∷ xs) ys d =
      let (dx, dy, apart) = Distinct-split xs ys d.1 in
      (
        (ground (arith, has-append x xs ys, d.0), dx),
        dy,
        λ a. ground (arith, has-append x xs ys, d.0, apart a, e.agrees a x),
      )
