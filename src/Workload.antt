-- ===== src/Workload.antt =====
-- pkg/workload: the workloads that pods are sorted for. Listing pods, the order of
-- controller.ActivePodsWithRanks, strconv.Atoi and sort.Slice are parameters.
pub mod Ranks
pub mod Sorting
use kapacity.Common.{
  ℕ, ◌+◌, ◌<◌, zero, suc, String, Bool, true, false, List, [], ◌∷◌, length, Option, none, some,
  if◌then◌else◌, ltb, string_eq, ◌==◌, Go, ok, err, panic, ◌>>=◌, errorf, wrap_err, Error,
}
use kapacity.Common.Int.{ℤ, ltb_ℤ}
use kapacity.Common.Dict.{find, put}
use kapacity.Pod.Data.{Pod}
use kapacity.Pod.Util.{is_pod_active}
use kapacity.Pod.Sorter.{Sorter}

-- The interface.
pub record Workload : Type 0 where
  pub sorter : Sorter
  pub can_select_pods_to_scale_down : Bool
  pub select_pods_to_scale_down : List (Option Pod) → Go (Unit {0})

abbrev or_zero : Option ℕ → ℕ
or_zero none = 0
or_zero (some n) = n

-- The number of active pods on each node.
unfoldable pub pods_on_node : List Pod → List (String × ℕ) → List (String × ℕ)
pods_on_node [] m = m
pods_on_node (p ∷ pods) m =
    pods_on_node pods
      (if is_pod_active p then put p.node_name (or_zero (find p.node_name m) + 1) m else m)

-- `s[i] = n`, which panics out of range.
unfoldable pub store_at : ℕ → ℕ → List ℕ → Go (List ℕ)
store_at i n [] = panic
store_at zero n (m ∷ ms) = ok (n ∷ ms)
store_at (suc i) n (m ∷ ms) = do rest ← store_at i n ms; ok (m ∷ rest)

-- The loop that stores the rank of each pod, from index i on; a nil pod panics.
unfoldable pub store_ranks : List (String × ℕ) → ℕ → List (Option Pod) → List ℕ → Go (List ℕ)
store_ranks m i [] ranks = ok ranks
store_ranks m i (none ∷ pods) ranks = panic
store_ranks m i (some p ∷ pods) ranks = do
  stored ← store_at i (or_zero (find p.node_name m)) ranks
  store_ranks m (i + 1) pods stored

module _ (list_pods : Go (List Pod))
    (sort_with_ranks : List (Option Pod) → List ℕ → List (Option Pod)) where
  -- `ranks := make([]int, 0, len(pods))` has no element.
  unfoldable pub replica_set_sort : List (Option Pod) → Go (List (Option Pod))
  replica_set_sort pods = do
    related ← wrap_err "failed to list related pods" [] list_pods
    ranks ← store_ranks (pods_on_node related []) 0 pods []
    ok (sort_with_ranks pods ranks)

  abbrev pub replica_set : Workload
  replica_set = record {
    sorter = record { sort = replica_set_sort };
    can_select_pods_to_scale_down = false;
    select_pods_to_scale_down =
        λ pods. err (errorf "ReplicaSet does not support this operation" []);
  }

  -- Deployment.Sort is that of a ReplicaSet with the same selector.
  abbrev pub deployment : Workload
  deployment = record {
    sorter = record { sort = λ pods. replica_set_sort pods };
    can_select_pods_to_scale_down = false;
    select_pods_to_scale_down =
        λ pods. err (errorf "Deployment does not support this operation" []);
  }

module _ (index_of_name : String → ℤ)
    (sort_slice : (Option Pod → Option Pod → Go Bool)
      → List (Option Pod)
      → Go (List (Option Pod))) where
  -- getStatefulSetPodIndex: the number behind the last "-" of the name.
  abbrev pub get_stateful_set_pod_index : Option Pod → Go ℤ
  get_stateful_set_pod_index none = panic
  get_stateful_set_pod_index (some p) = ok (index_of_name p.name)

  abbrev pub index_above : Option Pod → Option Pod → Go Bool
  index_above p q = do
    i ← get_stateful_set_pod_index p
    j ← get_stateful_set_pod_index q
    ok (ltb_ℤ j i)

  abbrev pub stateful_set : Workload
  stateful_set = record {
    sorter = record { sort = λ pods. sort_slice index_above pods };
    can_select_pods_to_scale_down = false;
    select_pods_to_scale_down =
        λ pods. err (errorf "StatefulSet does not support this operation" []);
  }
