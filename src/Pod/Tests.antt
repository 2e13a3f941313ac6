-- ===== src/Pod/Tests.antt =====
-- Small inputs: three pods of a workload, as in the repository's tests.
use kapacity.Common.{
  length, select, ℕ, String, List, [], ◌∷◌, Option, none, some, ◌≡◌, refl, ok, true, string_eq, err,
  panic, Go, Bool, false, if◌then◌else◌, ◌==◌, ◌>>=◌, subst,
}
use mathlib.Core.List.Perm
use mathlib.Core.List.{Perm}
use kapacity.Common.Int.{ℤ, pos}
use kapacity.Workload.{stateful_set}
use kapacity.Workload.Sorting.{stateful_set-IsSorter}
use kapacity.Common.Range.{in_order}
use kapacity.Common.Sets.{Distinct, has}
use kapacity.Common.Dict.{find}
use kapacity.Pod.Data.{Pod, deleted, cutoff, online, standby}
use kapacity.Pod.Util.{get_pod_names, is_pod_running}
use kapacity.Pod.State.{
  ByState, get_state, set_state, state_changed, filter_and_classify_by_running_state,
}
use kapacity.Pod.State.Laws.{
  get_state-set_state, state_changed_complete, running_in, filter_and_classify_lem,
}
use kapacity.Pod.Sorter.{Sorter, IsSorter}
use kapacity.Pod.Manager.{new_state_manager, calculate_state_change}
use kapacity.Pod.Manager.Select.{Ensures}
use kapacity.Pod.Manager.Transfer.{size}
use kapacity.Pod.Manager.Infos.{sum}
use kapacity.Pod.Manager.Laws.{IsFresh, IsChange, calculate_state_change_lem}
use kapacity.Pod.Manager.Start.{wanted, Holds, new_state_manager-IsFresh}

abbrev pod : String → List (String × String) → Pod
pod name labels = record {
  namespace = "default";
  name = name;
  labels = some labels;
  deletion_timestamp = none;
  phase = "Running";
  node_name = "node";
  readiness_gates = [];
  conditions = [];
}

abbrev pod_1 : Pod
pod_1 = pod "pod-1" []

abbrev pod_2 : Pod
pod_2 = pod "pod-2" []

abbrev pod_3 : Pod
pod_3 = pod "pod-3" (("kapacitystack.io/pod-state", "Cutoff") ∷ [])

abbrev pods : ByState (List Pod)
pods = record {
  of_online = pod_1 ∷ pod_2 ∷ [];
  of_cutoff = pod_3 ∷ [];
  of_standby = [];
  of_deleted = [];
}

abbrev desire : ℕ → ℕ → ByState ℕ
desire o c = record { of_online = o; of_cutoff = c; of_standby = 0; of_deleted = 0 }

abbrev Less : Type 0
Less = Option Pod → Option Pod → Go Bool

-- sort.Slice by insertion.
unfoldable place : Less → Option Pod → List (Option Pod) → Go (List (Option Pod))
place less p [] = ok (p ∷ [])
place less p (q ∷ qs) = do
  first ← less q p
  rest ← place less p qs
  ok (if first then q ∷ rest else p ∷ q ∷ qs)

unfoldable sort_slice : Less → List (Option Pod) → Go (List (Option Pod))
sort_slice less [] = ok []
sort_slice less (p ∷ pods) = do rest ← sort_slice less pods; place less p rest

-- A result, if there is one, is a permutation of these.
abbrev Permutes : List (Option Pod) → Go (List (Option Pod)) → Type 0
Permutes xs (ok ys) = Perm ys xs
Permutes xs _ = Unit

chosen-Perm :
    (p q : Option Pod) (qs rest : List (Option Pod)) (first : Bool)
    → Perm rest (p ∷ qs)
    → Perm (if first then q ∷ rest else p ∷ q ∷ qs) (p ∷ q ∷ qs)
chosen-Perm p q qs rest true h = Perm.trans (Perm.cons q h) (Perm.swap p q qs)
chosen-Perm p q qs rest false h = Perm.refl (p ∷ q ∷ qs)

place-Permutes :
    (less : Less) (p : Option Pod) (qs : List (Option Pod)) → Permutes (p ∷ qs) (place less p qs)
unfolding place
place-Permutes less p [] = Perm.refl (p ∷ [])
place-Permutes less p (q ∷ qs) = compared (place-Permutes less p qs) (less q p)
  where
    with_rest :
        (first : Bool) (r : Go (List (Option Pod)))
        → Permutes (p ∷ qs) r
        → Permutes (p ∷ q ∷ qs) (r >>= λ rest. ok (if first then q ∷ rest else p ∷ q ∷ qs))
    with_rest first (ok rest) h = chosen-Perm p q qs rest first h
    with_rest first (err e) h = tt
    with_rest first panic h = tt

    compared :
        Permutes (p ∷ qs) (place less p qs)
        → (r : Go Bool)
        → Permutes
            (p ∷ q ∷ qs)
            (r >>= λ first. place less p qs >>= λ rest. ok (if first then q ∷ rest else p ∷ q ∷ qs))
    compared h (ok first) = with_rest first (place less p qs) h
    compared h (err e) = tt
    compared h panic = tt

sort_slice-Permutes :
    (less : Less) (pods : List (Option Pod)) → Permutes pods (sort_slice less pods)
unfolding sort_slice
sort_slice-Permutes less [] = Perm.refl []
sort_slice-Permutes less (p ∷ pods) = placed (sort_slice less pods) (sort_slice-Permutes less pods)
  where
    moved :
        (rest : List (Option Pod)) (r : Go (List (Option Pod)))
        → Perm rest pods
        → Permutes (p ∷ rest) r
        → Permutes (p ∷ pods) r
    moved rest (ok ys) h k = Perm.trans k (Perm.cons p h)
    moved rest (err e) h k = tt
    moved rest panic h k = tt

    placed :
        (r : Go (List (Option Pod)))
        → Permutes pods r
        → Permutes (p ∷ pods) (r >>= λ rest. place less p rest)
    placed (ok rest) h = moved rest (place less p rest) h (place-Permutes less p rest)
    placed (err e) h = tt
    placed panic h = tt

sort_slice_permutes :
    (less : Less) (xs ys : List (Option Pod)) → sort_slice less xs ≡ ok ys → Perm ys xs
sort_slice_permutes less xs ys e = subst (Permutes xs) e (sort_slice-Permutes less xs)

abbrev index_of_name : String → ℤ
index_of_name name = if name == "pod-3" then pos 3 else if name == "pod-2" then pos 2 else pos 1

-- The sorter of a StatefulSet.
abbrev by_index : Sorter
by_index = (stateful_set index_of_name sort_slice).sorter

by_index-IsSorter : IsSorter by_index
by_index-IsSorter = stateful_set-IsSorter index_of_name sort_slice sort_slice_permutes

pods-Distinct : Distinct (get_pod_names (pod_1 ∷ pod_2 ∷ pod_3 ∷ []))
unfolding get_pod_names has
pods-Distinct = (refl, (refl, (refl, tt)))

classified : (filter_and_classify_by_running_state (pod_1 ∷ pod_3 ∷ pod_2 ∷ [])) ≡ (pods, 3)
unfolding filter_and_classify_by_running_state get_state is_pod_running find
classified = refl

new_state_manager-IsFresh_example :
    IsFresh (desire 1 2) (new_state_manager (wanted (desire 1 2)) pods)
    × (sum size (new_state_manager (wanted (desire 1 2)) pods) ≡ 3)
    × Holds pods (new_state_manager (wanted (desire 1 2)) pods)
unfolding get_pod_names has
new_state_manager-IsFresh_example = new_state_manager-IsFresh (desire 1 2) pods refl pods-Distinct

calculate_state_change_lem_example :
    Ensures by_index
      (IsChange in_order by_index (desire 1 2) (new_state_manager (wanted (desire 1 2)) pods))
      (calculate_state_change in_order by_index (new_state_manager (wanted (desire 1 2)) pods))
calculate_state_change_lem_example =
    calculate_state_change_lem in_order by_index-IsSorter (desire 1 2)
      (new_state_manager (wanted (desire 1 2)) pods)
      (new_state_manager-IsFresh (desire 1 2) pods refl pods-Distinct).0

get_state-set_state_example : (q : Pod) × (set_state pod_3 standby ≡ ok q) × (get_state q ≡ standby)
get_state-set_state_example = get_state-set_state pod_3 standby (λ e. cc)

state_changed_complete_example :
    (is_pod_running pod_1 ≡ is_pod_running pod_2)
    × (is_pod_running pod_1 ≡ true → get_state pod_1 ≡ get_state pod_2)
unfolding state_changed is_pod_running find
state_changed_complete_example = state_changed_complete pod_1 pod_2 refl

filter_and_classify_lem_example :
    filter_and_classify_by_running_state (pod_1 ∷ pod_3 ∷ pod_2 ∷ []) ≡ (
      record {
        of_online = running_in online (pod_1 ∷ pod_3 ∷ pod_2 ∷ []);
        of_cutoff = running_in cutoff (pod_1 ∷ pod_3 ∷ pod_2 ∷ []);
        of_standby = running_in standby (pod_1 ∷ pod_3 ∷ pod_2 ∷ []);
        of_deleted = running_in deleted (pod_1 ∷ pod_3 ∷ pod_2 ∷ []);
      },
      length (select is_pod_running (pod_1 ∷ pod_3 ∷ pod_2 ∷ [])),
    )
filter_and_classify_lem_example = filter_and_classify_lem (pod_1 ∷ pod_3 ∷ pod_2 ∷ [])
