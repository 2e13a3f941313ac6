-- ===== src/Webhook.antt =====
-- internal/webhook/pod/mutating: the readiness gate that is injected into pods. Decoding and encoding
-- a pod are parameters.
pub mod Twice
mod Tests
use kapacity.Common.{
  Bool, true, false, not, ◌&&◌, ◌||◌, String, List, [], Option, none, some, if◌then◌else◌, ◌==◌,
  string_eq, Go, ok, err, panic, Error, wrapf,
}
use kapacity.Common.Int.{ℤ, pos}
use kapacity.Common.Time.{Time, zero_time}
use kapacity.Common.Dict.{text_at}
use kapacity.Pod.Data.{Pod, PodCondition}
use kapacity.Pod.Util.{add_pod_condition, add_pod_readiness_gate}

-- admission.Request, without the object.
pub record Request : Type 0 where
  pub operation : String
  pub sub_resource : String

pub data Response : Type 0 where
  errored : (code : ℤ) → Error → Response
  allowed : Response
  patched : (raw : String) → Response

abbrev pub gate_type : String
gate_type = "kapacitystack.io/online"

abbrev pub asks_for_gate : Pod → Bool
asks_for_gate pod = text_at "kapacitystack.io/inject-pod-readiness-gate" pod.labels == "true"

abbrev pub is_creation : Request → Bool
is_creation req = req.operation == "CREATE" && req.sub_resource == ""

abbrev pub is_status_update : Request → Bool
is_status_update req = req.operation == "UPDATE" && req.sub_resource == "status"

abbrev pub with_gates : Pod → List String × Bool → Pod × Bool
with_gates pod (gates, changed) = (record pod { readiness_gates = gates }, changed)

abbrev pub with_conditions : Pod → List PodCondition × Bool → Pod × Bool
with_conditions pod (conditions, changed) = (record pod { conditions = conditions }, changed)

-- The pod after it, and whether it changed.
unfoldable pub inject_readiness_gate : Request → Pod → Pod × Bool
inject_readiness_gate req pod =
    if is_creation req && asks_for_gate pod
    then with_gates pod (add_pod_readiness_gate pod.readiness_gates gate_type)
    else (pod, false)

abbrev pub gate_condition : PodCondition
gate_condition = record { type = gate_type; status = "True"; last_transition_time = zero_time }

unfoldable pub default_readiness_gate_status : Time → Request → Pod → Pod × Bool
default_readiness_gate_status now req pod =
    if is_status_update req && asks_for_gate pod
    then with_conditions pod (add_pod_condition now pod.conditions gate_condition)
    else (pod, false)

unfoldable pub mutate : Time → Request → Pod → Pod × Bool
mutate now req pod =
    let injected = inject_readiness_gate req pod in
    let defaulted = default_readiness_gate_status now req injected.0 in
    (defaulted.0, injected.1 || defaulted.1)

module _ (marshal : Pod → Go String) where
  abbrev respond : Pod × Bool → Go Response
  respond (pod, false) = ok allowed
  respond (pod, true) = elim (marshal pod) [
    | ok raw ↦ ok (patched raw)
    | err e ↦ ok (errored (pos 500) (wrapf "failed to marshal mutated pod" [] e))
    | panic ↦ panic
  ]

  -- The request comes with the object that was decoded.
  unfoldable pub handle : Time → Request → Go Pod → Go Response
  handle now req (ok pod) = respond (mutate now req pod)
  handle now req (err e) = ok (errored (pos 400) (wrapf "failed to decode obj" [] e))
  handle now req panic = panic
