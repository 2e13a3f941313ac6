-- ===== src/Api/Ihpa.antt =====
-- intelligenthorizontalpodautoscaler_types.go
use native.Mathlib.Decide.{ℕ_discrete}
use kapacity.Common.{String, Bool, List, Option, String-discrete}
use kapacity.Common.Int.{ℤ}
use kapacity.Common.Time.{Time}
use kapacity.Pod.Data.{PodState}
use kapacity.Api.Meta.{ObjectMeta, TargetRef, Condition}
use kapacity.Api.ReplicaProfile.{ReplicaProfileBehavior}
use kapacity.Api.Algorithm.{PortraitSpec}
use kapacity.Api.HorizontalPortrait.{ReplicaCron}

pub data ScaleMode : Type 0 where
  auto preview : ScaleMode
  unknown_mode : String → ScaleMode

-- HorizontalPortraitProvider: its type, with the configuration that belongs to it, and its
-- priority.
pub data ProviderConfig : Type 0 where
  static_config : (replicas : ℤ) → ProviderConfig
  cron_config : List ReplicaCron → ProviderConfig
  dynamic_config : PortraitSpec → ProviderConfig

pub record HorizontalPortraitProvider : Type 0 where
  pub type : String
  pub priority : ℤ
  pub config : ProviderConfig

pub record GrayStrategy : Type 0 where
  pub gray_state : PodState
  pub change_interval_seconds : ℤ
  pub change_percent : ℤ
  pub observation_seconds : ℤ

pub record ScalingBehavior : Type 0 where
  pub disabled : Bool
  pub gray_strategy : Option GrayStrategy

pub record Behavior : Type 0 where
  pub scale_up : ScalingBehavior
  pub scale_down : ScalingBehavior
  pub replica_profile : Option ReplicaProfileBehavior

pub record IhpaSpec : Type 0 where
  pub scale_target_ref : TargetRef
  pub paused : Bool
  pub min_replicas : ℤ
  pub max_replicas : ℤ
  pub scale_mode : ScaleMode
  pub portrait_providers : List HorizontalPortraitProvider
  pub behavior : Behavior

pub record HorizontalPortraitValue : Type 0 where
  pub provider : String
  pub replicas : ℤ
  pub expire_time : Option Time

pub HorizontalPortraitValue-discrete : Discrete HorizontalPortraitValue
HorizontalPortraitValue-discrete = hlevel (String-discrete, ℕ_discrete)

pub record GrayStatus : Type 0 where
  pub gray_percent : ℤ
  pub last_update_time : Time

pub record IhpaStatus : Type 0 where
  pub previous_portrait_value : Option HorizontalPortraitValue
  pub current_portrait_value : Option HorizontalPortraitValue
  pub gray : Option GrayStatus
  pub conditions : List Condition

pub IhpaStatus-discrete : Discrete IhpaStatus
IhpaStatus-discrete = hlevel (String-discrete, ℕ_discrete)

pub record Ihpa : Type 0 where
  pub meta : ObjectMeta
  pub spec : IhpaSpec
  pub status : IhpaStatus
