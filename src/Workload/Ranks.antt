-- ===== src/Workload/Ranks.antt =====
-- The ranks of ReplicaSet.Sort.
use kapacity.Common.{ℕ, zero, suc, ◌≡◌, refl, List, [], ◌∷◌, String, Option, none, some, ok, panic}
use kapacity.Pod.Data.{Pod}
use kapacity.Workload.{replica_set_sort, store_ranks, store_at, pods_on_node}

store_at_empty : (i n : ℕ) → store_at i n [] ≡ panic
unfolding store_at
store_at_empty zero n = refl
store_at_empty (suc i) n = refl

store_ranks_empty :
    (m : List (String × ℕ)) (p : Option Pod) (pods : List (Option Pod))
    → store_ranks m 0 (p ∷ pods) [] ≡ panic
unfolding store_ranks store_at
store_ranks_empty m none pods = refl
store_ranks_empty m (some p) pods = refl

-- Whenever the related pods can be listed, ReplicaSet.Sort panics on every list that has a pod.
pub replica_set_sort-panic :
    (related : List Pod)
    → (sort_with_ranks : List (Option Pod) → List ℕ → List (Option Pod))
    → (p : Option Pod) (pods : List (Option Pod))
    → replica_set_sort (ok related) sort_with_ranks (p ∷ pods) ≡ panic
unfolding replica_set_sort
replica_set_sort-panic related sort_with_ranks p pods =
    rw (store_ranks_empty (pods_on_node related []) p pods) refl
