-- ===== src/Workload/Sorting.antt =====
-- The sorter of pkg/workload/statefulset.go as a client of the state manager sees it.
use kapacity.Common.{String, List, Option, Bool, Go, ok, ◌≡◌}
use kapacity.Common.Int.{ℤ}
use mathlib.Core.List.{Perm}
use kapacity.Pod.Data.{Pod}
use kapacity.Pod.Sorter.{IsSorter}
use kapacity.Workload.{stateful_set}

-- sort.Slice over pods, where a comparison may panic.
abbrev pub SortSlice : Type 0
SortSlice = (Option Pod → Option Pod → Go Bool) → List (Option Pod) → Go (List (Option Pod))

-- As sort.Slice permutes its slice, the sorter of a StatefulSet returns the pods that it was given.
pub stateful_set-IsSorter :
    (index_of_name : String → ℤ) (sort_slice : SortSlice)
    → ((less : Option Pod → Option Pod → Go Bool) (xs ys : List (Option Pod))
        → sort_slice less xs ≡ ok ys
        → Perm ys xs)
    → IsSorter (stateful_set index_of_name sort_slice).sorter
stateful_set-IsSorter index_of_name sort_slice permutes = record {
  sort_perm = λ xs ys e. permutes _ xs ys e;
}
