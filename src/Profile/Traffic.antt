-- ===== src/Profile/Traffic.antt =====
-- pkg/pod/traffic/readinessgate.go, and setPodState of the controller. A pod is changed in place,
-- so the pods are returned as the server answered. UpdatePodCondition is a parameter.
use kapacity.Common.{
  String, Bool, List, [], ◌∷◌, Option, none, some, Go, ok, err, panic, Error, wrapf, if◌then◌else◌,
}
use kapacity.Common.Prog.{Prog, done, ◌>>=◌, ask, then_go}
use kapacity.Common.Time.{zero_time}
use kapacity.Pod.Data.{Pod, PodState, PodCondition}
use kapacity.Pod.State.{set_state}
use kapacity.Profile.Calls.{Code, patch_pod, patch_pod_status}

abbrev pub readiness_gate_online : String
readiness_gate_online = "kapacitystack.io/online"

-- apiv1pod.UpdatePodCondition: the conditions, and whether they changed.
abbrev pub UpdateCondition : Type 0
UpdateCondition = List PodCondition → PodCondition → List PodCondition × Bool

module _ (update_pod_condition : UpdateCondition) where
  unfoldable pub set_readiness_gate_status : Pod → (status : String) → Code (Go Pod)
  set_readiness_gate_status pod status =
      let (conditions, changed) = update_pod_condition pod.conditions (record {
        type = readiness_gate_online;
        status = status;
        last_transition_time = zero_time;
      }) in
      if changed
      then ask (patch_pod_status pod (record pod { conditions = conditions }))
      else done (ok (record pod { conditions = conditions }))

  -- On and Off, which differ in the status.
  unfoldable pub set_gates : (status : String) → List (Option Pod) → Code (Go (List (Option Pod)))
  set_gates status [] = done (ok [])
  set_gates status (none ∷ pods) = Prog.crash
  set_gates status (some pod ∷ pods) = do
    set ← set_readiness_gate_status pod status
    elim set [
      | ok p ↦ do rest ← set_gates status pods; then_go rest (λ ps. done (ok (some p ∷ ps)))
      | err e ↦ done (err (wrapf "failed to set readiness gate of pod %q" (pod.name ∷ []) e))
      | panic ↦ Prog.crash
    ]

  abbrev pub on : List (Option Pod) → Code (Go (List (Option Pod)))
  on pods = set_gates "True" pods

  abbrev pub off : List (Option Pod) → Code (Go (List (Option Pod)))
  off pods = set_gates "False" pods

unfoldable pub set_pod_state : Pod → PodState → Code (Go Pod)
set_pod_state pod state = then_go (set_state pod state) (λ changed. ask (patch_pod pod changed))

-- The loop that sets the state of each pod: the error, with the name of the pod it met.
unfoldable pub set_pod_states : List (Option Pod) → PodState → Code (Option (String × Error))
set_pod_states [] state = done none
set_pod_states (none ∷ pods) state = Prog.crash
set_pod_states (some pod ∷ pods) state = do
  set ← set_pod_state pod state
  elim set [
    | ok _ ↦ set_pod_states pods state
    | err e ↦ done (some (pod.name, e))
    | panic ↦ Prog.crash
  ]
