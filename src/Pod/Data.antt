-- ===== src/Pod/Data.antt =====
-- The fields of corev1.Pod that the program reads or writes, and the pod states
-- (PodState of apis/autoscaling/v1alpha1/intelligenthorizontalpodautoscaler_types.go).
use kapacity.Common.{String, List, Option, string_eq}
use kapacity.Common.Dict.{GoMap}
use kapacity.Common.Time.{Time}

pub record PodCondition : Type 0 where
  pub type : String
  pub status : String
  pub last_transition_time : Time

pub record Pod : Type 0 where
  pub namespace : String
  pub name : String
  pub labels : GoMap String
  pub deletion_timestamp : Option Time
  pub phase : String
  pub node_name : String
  pub readiness_gates : List String
  pub conditions : List PodCondition

pub data PodState : Type 0 where
  online cutoff standby deleted : PodState

pub PodState-discrete : Discrete PodState
PodState-discrete = hlevel

-- The string that a state is.
abbrev pub state_text : PodState → String
state_text PodState.online = "Online"
state_text PodState.cutoff = "Cutoff"
state_text PodState.standby = "Standby"
state_text PodState.deleted = "Deleted"

abbrev pub label_state : String
label_state = "kapacitystack.io/pod-state"
