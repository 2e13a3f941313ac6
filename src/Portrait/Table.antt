-- ===== src/Portrait/Table.antt =====
-- sync.Map by the name of an object: the entries stored so far, one for each key.
use kapacity.Common.{
  ◌≡◌, Bool, List, [], ◌∷◌, Option, none, some, if◌then◌else◌, Eq, ◌==◌, discrete_eq,
  String-discrete, arith, ◌↔◌,
}
use kapacity.Api.Meta.{NamespacedName}

pub NamespacedName-discrete : Discrete NamespacedName
NamespacedName-discrete = hlevel (String-discrete)

instance abbrev pub name_eq : Eq NamespacedName
name_eq = discrete_eq NamespacedName-discrete

abbrev pub Table : Type 0 → Type 0
Table V = List (NamespacedName × V)

name_iff : (a b : NamespacedName) → ((a == b) ≡ Bool.true) ↔ (a ≡ b)
name_iff a b = name_eq.agrees a b

module _ {V : Type 0} where
  unfoldable pub load : NamespacedName → Table V → Option V
  load k [] = none
  load k ((j, v) ∷ m) = if j == k then some v else load k m

  unfoldable pub delete : NamespacedName → Table V → Table V
  delete k [] = []
  delete k ((j, v) ∷ m) = if j == k then delete k m else (j, v) ∷ delete k m

  unfoldable pub store : NamespacedName → V → Table V → Table V
  store k v m = (k, v) ∷ delete k m

  pub load-delete :
      (k j : NamespacedName) (m : Table V)
      → load j (delete k m) ≡ (if k == j then none else load j m)
  unfolding load delete
  load-delete k j [] = ground arith
  load-delete k j ((i, w) ∷ m) =
      ground (arith, name_iff k j, name_iff i k, name_iff i j, load-delete k j m)

  pub load-store :
      (k j : NamespacedName) (v : V) (m : Table V)
      → load j (store k v m) ≡ (if k == j then some v else load j m)
  unfolding load store
  load-store k j v m = ground (arith, load-delete k j m)
