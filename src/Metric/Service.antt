-- ===== src/Metric/Service.antt =====
-- pkg/metric/service/server.go: the metric service. A getter of a message that is nil, or of the
-- part of a oneof that is not set, gives the zero value. labels.Parse, metav1.ParseToLabelSelector and
-- the metric provider are parameters, and the result of a oneof is written as data.
pub mod Message
pub use Message.*
use kapacity.Common.{
  Bool, false, String, List, [], ◌∷◌, Option, none, some, map, if◌then◌else◌, ◌==◌, string_eq, Go,
  ok, err, errorf, ◌>>=◌, wrap_err,
}
use kapacity.Common.Int.{ℤ}
use kapacity.Common.Time.{Time}
use kapacity.Common.Dict.{convert_prom_label_set_to_map}
use kapacity.Util.Selector.{Selector}
use kapacity.Api.Metrics.{LabelSelector, MetricIdentifier}
use kapacity.Metric.Data.{
  GroupKind, PodResourceQuery, WorkloadResourceQuery, Query, pod_resource_query,
  container_resource_query, workload_resource_query, workload_container_resource_query,
  object_query, external_query, workload_external_query, Sample, Series,
}

abbrev metric_name : Option MetricMessage → String
metric_name none = ""
metric_name (some m) = m.name

module _ (parse : String → Go Selector) (parse_to_label_selector : String → Go LabelSelector) where
  -- A selector is read only where there is no name.
  unfoldable pub selector_of : (format name selector : String) → Go (Option Selector)
  selector_of format name selector =
      if name == ""
      then (do s ← wrap_err format (selector ∷ []) (parse selector); ok (some s))
      else ok none

  unfoldable pub metric_of : (format : String) → Option MetricMessage → Go MetricIdentifier
  metric_of format none = ok (record { name = ""; selector = none })
  metric_of format (some m) =
      if m.selector == "" then ok (record { name = m.name; selector = none }) else (do
        s ← wrap_err format (m.selector ∷ []) (parse_to_label_selector m.selector)
        ok (record { name = m.name; selector = some s }))

  unfoldable pub pod_resource_of : (format : String) → PodResourceMessage → Go PodResourceQuery
  pod_resource_of format m = do
    s ← selector_of format m.name m.selector
    ok (record {
      namespace = m.namespace;
      name = m.name;
      selector = s;
      resource_name = m.resource_name;
    })

  unfoldable pub workload_resource_of : WorkloadResourceMessage → WorkloadResourceQuery
  workload_resource_of m = record {
    group_kind = group_kind_of m.group_kind;
    namespace = m.namespace;
    name = m.name;
    resource_name = m.resource_name;
    ready_pods_only = m.ready_pods_only;
  }

  -- The two switches, over the type of the message and the type that it is converted to.
  unfoldable pub convert_api_query_to_internal_query : QueryType → QueryBody → Go Query
  convert_api_query_to_internal_query pod_resource body = do
    q ← pod_resource_of "failed to parse selector %q of pod resource query" (get_pod_resource body)
    ok (pod_resource_query q)
  convert_api_query_to_internal_query container_resource body = do
    q ←
        pod_resource_of "failed to parse selector %q of container resource query"
          (get_container_resource body)
    ok (container_resource_query q (get_container_resource body).container_name)
  convert_api_query_to_internal_query workload_resource body =
      ok (workload_resource_query (workload_resource_of (get_workload_resource body)))
  convert_api_query_to_internal_query workload_container_resource body = ok (
      workload_container_resource_query
        (workload_resource_of (get_workload_container_resource body))
        (get_workload_container_resource body).container_name)
  convert_api_query_to_internal_query object body = do
    let m = get_object body
    s ← selector_of "failed to parse selector %q of object query" m.name m.selector
    metric ← metric_of "failed to parse metric selector %q of object query" m.metric
    ok (
        object_query (record {
          group_kind = group_kind_of m.group_kind;
          namespace = m.namespace;
          name = m.name;
          selector = s;
          metric = metric;
        }))
  convert_api_query_to_internal_query external body = do
    let m = get_external body
    metric ← metric_of "failed to parse metric selector %q of external query" m.metric
    ok (external_query (record { namespace = m.namespace; metric = metric }))
  convert_api_query_to_internal_query workload_external body = do
    let m = get_workload_external body
    metric ← metric_of "failed to parse metric selector %q of workload external query" m.metric
    ok (
        workload_external_query (record {
          group_kind = group_kind_of m.group_kind;
          namespace = m.namespace;
          name = m.name;
          metric = metric;
        }))
  convert_api_query_to_internal_query (unknown_query_type t) body =
      wrap_err "failed to convert api query type to internal query type" []
        (err (errorf "unknown query type %q" (t ∷ [])))

  module _ {Float : Type 0} where
    unfoldable pub convert_internal_sample_to_api_sample : Sample Float → Sample Float
    convert_internal_sample_to_api_sample s = record s {
      labels = convert_prom_label_set_to_map s.labels;
    }

    unfoldable pub convert_internal_series_to_api_series : Series Float → Series Float
    convert_internal_series_to_api_series s = record s {
      labels = convert_prom_label_set_to_map s.labels;
    }

    unfoldable pub query_latest :
        (Query → Go (List (Sample Float))) → QueryMessage → Go (List (Sample Float))
    query_latest provider request = do
      query ←
          wrap_err "failed to convert api query to internal query" []
            (convert_api_query_to_internal_query request.type request.body)
      samples ← wrap_err "failed to query latest metrics" [] (provider query)
      ok (map convert_internal_sample_to_api_sample samples)

    unfoldable pub query_range :
        (Query → (start end : Time) → (step : ℤ) → Go (List (Series Float)))
        → QueryMessage
        → (start end : Time) → (step : ℤ) → Go (List (Series Float))
    query_range provider request start end step = do
      query ←
          wrap_err "failed to convert api query to internal query" []
            (convert_api_query_to_internal_query request.type request.body)
      series ← wrap_err "failed to query metrics" [] (provider query start end step)
      ok (map convert_internal_series_to_api_series series)
