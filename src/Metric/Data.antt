-- ===== src/Metric/Data.antt =====
-- pkg/metric/query.go and value.go. Of a query the data that belongs to its type is kept. The floats
-- of Go are a parameter of the values.
use kapacity.Common.{String, List, Option, Bool}
use kapacity.Common.Int.{ℤ}
use kapacity.Common.Dict.{GoMap}
use kapacity.Util.Selector.{Selector}
use kapacity.Api.Metrics.{MetricIdentifier}

pub record GroupKind : Type 0 where
  pub group : String
  pub kind : String

pub record PodResourceQuery : Type 0 where
  pub namespace : String
  pub name : String
  pub selector : Option Selector
  pub resource_name : String

pub record WorkloadResourceQuery : Type 0 where
  pub group_kind : GroupKind
  pub namespace : String
  pub name : String
  pub resource_name : String
  pub ready_pods_only : Bool

pub record ObjectQuery : Type 0 where
  pub group_kind : GroupKind
  pub namespace : String
  pub name : String
  pub selector : Option Selector
  pub metric : MetricIdentifier

pub record ExternalQuery : Type 0 where
  pub namespace : String
  pub metric : MetricIdentifier

pub record WorkloadExternalQuery : Type 0 where
  pub group_kind : GroupKind
  pub namespace : String
  pub name : String
  pub metric : MetricIdentifier

pub data Query : Type 0 where
  pod_resource_query : PodResourceQuery → Query
  container_resource_query : PodResourceQuery → (container_name : String) → Query
  workload_resource_query : WorkloadResourceQuery → Query
  workload_container_resource_query : WorkloadResourceQuery → (container_name : String) → Query
  object_query : ObjectQuery → Query
  external_query : ExternalQuery → Query
  workload_external_query : WorkloadExternalQuery → Query

-- A timestamp is a number of milliseconds, a window a duration.
pub record Point (Float : Type 0) : Type 0 where
  pub timestamp : ℤ
  pub value : Float

pub record Sample (Float : Type 0) : Type 0 where
  pub point : Point Float
  pub labels : GoMap String
  pub window : Option ℤ

pub record Series (Float : Type 0) : Type 0 where
  pub points : List (Point Float)
  pub labels : GoMap String
  pub window : Option ℤ

-- The constants of QueryType.
abbrev pub query_type : Query → String
query_type (pod_resource_query q) = "PodResource"
query_type (container_resource_query q c) = "ContainerResource"
query_type (workload_resource_query q) = "WorkloadResource"
query_type (workload_container_resource_query q c) = "WorkloadContainerResource"
query_type (object_query q) = "Object"
query_type (external_query q) = "External"
query_type (workload_external_query q) = "WorkloadExternal"
