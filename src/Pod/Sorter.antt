-- ===== src/Pod/Sorter.antt =====
-- pkg/pod/sorter/interfaces.go. A *corev1.Pod is an option: nil or a pod.
use kapacity.Common.{List, Option, ◌≡◌, Go, ok}
use mathlib.Core.List.{Perm}
use kapacity.Pod.Data.{Pod}

pub record Sorter : Type 0 where
  pub sort : List (Option Pod) → Go (List (Option Pod))

-- What the clients rely on: what a sorter returns are the pods that it was given.
pub record IsSorter (s : Sorter) : Type 0 where
  pub sort_perm : (xs ys : List (Option Pod)) → s.sort xs ≡ ok ys → Perm ys xs
