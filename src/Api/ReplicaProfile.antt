-- ===== src/Api/ReplicaProfile.antt =====
-- replicaprofile_types.go
use native.Mathlib.Decide.{ℕ_discrete}
use kapacity.Common.{String, Bool, List, String-discrete}
use kapacity.Common.Int.{ℤ}
use kapacity.Api.Meta.{ObjectMeta, TargetRef, Condition}

pub data ScalingDirection : Type 0 where
  both neither up down : ScalingDirection

-- The types of sorter and of traffic controller, with any text that is no known type.
pub data PodSorterType : Type 0 where
  workload_default external_sorter : PodSorterType
  unknown_sorter : String → PodSorterType

pub data PodTrafficControllerType : Type 0 where
  readiness_gate external_traffic : PodTrafficControllerType
  unknown_traffic : String → PodTrafficControllerType

pub record ReplicaProfileBehavior : Type 0 where
  pub pod_sorter : PodSorterType
  pub pod_traffic_controller : PodTrafficControllerType

pub record ReplicaProfileSpec : Type 0 where
  pub scale_target_ref : TargetRef
  pub online_replicas : ℤ
  pub cutoff_replicas : ℤ
  pub standby_replicas : ℤ
  pub paused : Bool
  pub allowed_scaling_direction : ScalingDirection
  pub behavior : ReplicaProfileBehavior

pub ReplicaProfileSpec-discrete : Discrete ReplicaProfileSpec
ReplicaProfileSpec-discrete = hlevel (String-discrete, ℕ_discrete)

pub record ReplicaProfileStatus : Type 0 where
  pub online_replicas : ℤ
  pub cutoff_replicas : ℤ
  pub standby_replicas : ℤ
  pub conditions : List Condition

pub ReplicaProfileStatus-discrete : Discrete ReplicaProfileStatus
ReplicaProfileStatus-discrete = hlevel (String-discrete, ℕ_discrete)

pub record ReplicaProfile : Type 0 where
  pub meta : ObjectMeta
  pub spec : ReplicaProfileSpec
  pub status : ReplicaProfileStatus
