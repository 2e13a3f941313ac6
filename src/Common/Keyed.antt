-- ===== src/Common/Keyed.antt =====
-- A Go map whose keys are compared by an instance: the entries made so far, one for each key.
use mathlib.Core.Path.{◌≡◌, refl}
use mathlib.Core.Option.{Option, none, some}
use mathlib.Core.List.{List, [], ◌∷◌}
use native.Mathlib.Omega.{arith}
use kapacity.Common.Tests.{if◌then◌else◌}
use kapacity.Common.Equality.{Eq, ◌==◌}

module _ {K V : Type 0} ⦃e : Eq K⦄ where
  unfoldable pub find_key : K → List (K × V) → Option V
  find_key k [] = none
  find_key k ((j, v) ∷ m) = if j == k then some v else find_key k m

  unfoldable pub put_key : K → V → List (K × V) → List (K × V)
  put_key k v [] = (k, v) ∷ []
  put_key k v ((j, w) ∷ m) = if j == k then (k, v) ∷ m else (j, w) ∷ put_key k v m

  pub find_key-put_key :
      (k j : K) (v : V) (m : List (K × V))
      → find_key j (put_key k v m) ≡ (if k == j then some v else find_key j m)
  unfolding find_key put_key
  find_key-put_key k j v [] = refl
  find_key-put_key k j v ((i, w) ∷ m) =
      ground (arith, e.agrees k j, e.agrees i k, e.agrees i j, find_key-put_key k j v m)
