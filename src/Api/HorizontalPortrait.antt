-- ===== src/Api/HorizontalPortrait.antt =====
-- horizontalportrait_types.go: the portrait, with the data that generators produce and providers
-- read, and ReplicaCron of intelligenthorizontalpodautoscaler_types.go, of which both kinds of object hold lists.
use native.Mathlib.Decide.{ℕ_discrete}
use kapacity.Common.{String, List, Option, String-discrete}
use kapacity.Common.Int.{ℤ}
use kapacity.Common.Time.{Time}
use kapacity.Api.Meta.{ObjectMeta, TargetRef, Condition}
use kapacity.Api.Algorithm.{PortraitSpec}

pub record ReplicaCron : Type 0 where
  pub name : String
  pub time_zone : String
  pub start : String
  pub end : String
  pub replicas : ℤ

pub record ReplicaTimeSeriesPoint : Type 0 where
  pub timestamp : ℤ
  pub replicas : ℤ

-- HorizontalPortraitData: its type, and the data that the program reads through the pointer which
-- belongs to that type.
pub data PortraitData : Type 0 where
  static_data : (replicas : ℤ) → PortraitData
  cron_data : List ReplicaCron → PortraitData
  time_series_data : List ReplicaTimeSeriesPoint → PortraitData
  unknown_data : String → PortraitData

pub record HorizontalPortraitData : Type 0 where
  pub body : PortraitData
  pub expire_time : Option Time

pub record HorizontalPortraitSpec : Type 0 where
  pub scale_target_ref : TargetRef
  pub portrait : PortraitSpec

pub record HorizontalPortraitStatus : Type 0 where
  pub portrait_data : Option HorizontalPortraitData
  pub conditions : List Condition

pub HorizontalPortraitStatus-discrete : Discrete HorizontalPortraitStatus
HorizontalPortraitStatus-discrete = hlevel (String-discrete, ℕ_discrete)

pub record HorizontalPortrait : Type 0 where
  pub meta : ObjectMeta
  pub spec : HorizontalPortraitSpec
  pub status : HorizontalPortraitStatus
