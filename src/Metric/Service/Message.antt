-- ===== src/Metric/Service/Message.antt =====
-- The messages of the metric service, as pkg/metric/service/server.go reads them by their getters: a
-- message that is nil, or the part of a oneof that is not set, gives the zero value.
use kapacity.Common.{Bool, false, String, Option, none, some, string_eq}
use kapacity.Metric.Data.{GroupKind}

pub record PodResourceMessage : Type 0 where
  pub namespace : String
  pub name : String
  pub selector : String
  pub resource_name : String
  pub container_name : String

pub record WorkloadResourceMessage : Type 0 where
  pub group_kind : Option GroupKind
  pub namespace : String
  pub name : String
  pub resource_name : String
  pub ready_pods_only : Bool
  pub container_name : String

pub record MetricMessage : Type 0 where
  pub name : String
  pub selector : String

-- The messages of object, external and workload external queries, of which the last two have no
-- selector, and the second has no name and no group.
pub record ObjectMessage : Type 0 where
  pub group_kind : Option GroupKind
  pub namespace : String
  pub name : String
  pub selector : String
  pub metric : Option MetricMessage

pub data QueryType : Type 0 where
  pod_resource container_resource workload_resource workload_container_resource : QueryType
  object external workload_external : QueryType
  unknown_query_type : String → QueryType

-- The oneof of a query: the kind of the part that is set, with the part.
pub data QueryBody : Type 0 where
  no_body : QueryBody
  pod_resource_body container_resource_body : PodResourceMessage → QueryBody
  workload_resource_body workload_container_resource_body : WorkloadResourceMessage → QueryBody
  object_body external_body workload_external_body : ObjectMessage → QueryBody

pub record QueryMessage : Type 0 where
  pub type : QueryType
  pub body : QueryBody

abbrev pub zero_pod_message : PodResourceMessage
zero_pod_message = record {
  namespace = "";
  name = "";
  selector = "";
  resource_name = "";
  container_name = "";
}

abbrev pub zero_workload_message : WorkloadResourceMessage
zero_workload_message = record {
  group_kind = none;
  namespace = "";
  name = "";
  resource_name = "";
  ready_pods_only = false;
  container_name = "";
}

abbrev pub zero_object_message : ObjectMessage
zero_object_message = record {
  group_kind = none;
  namespace = "";
  name = "";
  selector = "";
  metric = none;
}

-- The getters of the parts.
abbrev pub get_pod_resource : QueryBody → PodResourceMessage
get_pod_resource (pod_resource_body m) = m
get_pod_resource _ = zero_pod_message

abbrev pub get_container_resource : QueryBody → PodResourceMessage
get_container_resource (container_resource_body m) = m
get_container_resource _ = zero_pod_message

abbrev pub get_workload_resource : QueryBody → WorkloadResourceMessage
get_workload_resource (workload_resource_body m) = m
get_workload_resource _ = zero_workload_message

abbrev pub get_workload_container_resource : QueryBody → WorkloadResourceMessage
get_workload_container_resource (workload_container_resource_body m) = m
get_workload_container_resource _ = zero_workload_message

abbrev pub get_object : QueryBody → ObjectMessage
get_object (object_body m) = m
get_object _ = zero_object_message

abbrev pub get_external : QueryBody → ObjectMessage
get_external (external_body m) = m
get_external _ = zero_object_message

abbrev pub get_workload_external : QueryBody → ObjectMessage
get_workload_external (workload_external_body m) = m
get_workload_external _ = zero_object_message

abbrev pub group_kind_of : Option GroupKind → GroupKind
group_kind_of none = record { group = ""; kind = "" }
group_kind_of (some g) = g
