-- ===== src/Pod/Util.antt =====
-- pkg/util/pod.go: names of pods, whether a pod runs or is active, and the two helpers by which
-- a condition or a readiness gate is added once.
use kapacity.Common.{
  String, Bool, true, false, not, ◌&&◌, List, [], ◌∷◌, ◌++◌, Option, none, some, if◌then◌else◌,
  ◌==◌, string_eq,
}
use kapacity.Common.Time.{Time, is_zero_ptr}
use kapacity.Pod.Data.{Pod, PodCondition}

abbrev pub pod_running : String
pod_running = "Running"

unfoldable pub get_pod_names : List Pod → List String
get_pod_names [] = []
get_pod_names (p ∷ pods) = p.name ∷ get_pod_names pods

unfoldable pub is_pod_running : Pod → Bool
is_pod_running p = is_zero_ptr p.deletion_timestamp && p.phase == pod_running

unfoldable pub is_pod_active : Pod → Bool
is_pod_active p =
    not (p.phase == "Succeeded") && not (p.phase == "Failed") && is_zero_ptr p.deletion_timestamp

-- A condition of the given type, if the list has one.
unfoldable pub get_pod_condition : List PodCondition → String → Option PodCondition
get_pod_condition [] type = none
get_pod_condition (c ∷ cs) type = if c.type == type then some c else get_pod_condition cs type

-- AddPodCondition: the conditions and whether one was added, stamped with the time.
unfoldable pub add_pod_condition :
    Time → List PodCondition → PodCondition → List PodCondition × Bool
unfolding get_pod_condition
add_pod_condition now cs c = elim (get_pod_condition cs c.type) [
  | some old ↦ (cs, false)
  | none ↦ (cs ++ record c { last_transition_time = now } ∷ [], true)
]

unfoldable pub has_gate : List String → String → Bool
has_gate [] type = false
has_gate (g ∷ gs) type = if g == type then true else has_gate gs type

unfoldable pub add_pod_readiness_gate : List String → String → List String × Bool
unfolding has_gate
add_pod_readiness_gate gates type =
    if has_gate gates type then (gates, false) else (gates ++ type ∷ [], true)
