-- ===== src/Api/Metrics.antt =====
-- MetricSpec of horizontalportrait_types.go, with the types of k8s.io/api/autoscaling/v2 that it
-- embeds. Of a source, the data that belongs to its type is kept. A quantity is its MilliValue.
use kapacity.Common.{String, List, Option}
use kapacity.Common.Int.{ℤ}
use kapacity.Common.Dict.{GoMap}
use kapacity.Api.Meta.{TargetRef}

pub record LabelSelectorRequirement : Type 0 where
  pub key : String
  pub operator : String
  pub values : List String

pub record LabelSelector : Type 0 where
  pub match_labels : GoMap String
  pub match_expressions : List LabelSelectorRequirement

pub record MetricIdentifier : Type 0 where
  pub name : String
  pub selector : Option LabelSelector

pub record MetricTarget : Type 0 where
  pub type : String
  pub value : Option ℤ
  pub average_value : Option ℤ
  pub average_utilization : Option ℤ

pub data MetricSource : Type 0 where
  resource_source : (name : String) → MetricTarget → MetricSource
  container_resource_source : (name container : String) → MetricTarget → MetricSource
  pods_source : MetricIdentifier → MetricTarget → MetricSource
  object_source : (described : TargetRef) → MetricIdentifier → MetricTarget → MetricSource
  external_source : MetricIdentifier → MetricTarget → MetricSource
  unknown_source : (type : String) → MetricSource

pub record MetricSpec : Type 0 where
  pub source : MetricSource
  pub name : String
  pub operator : String
