-- ===== src/Prometheus/Query.antt =====
-- pkg/metric/provider/prometheus/query.go: the PromQL query of a metric query. What the provider asks
-- of the API server and of the Prometheus adapter are fields of Building. fmt.Sprintf with the
-- pattern of a workload's pods is a parameter of it.
use kapacity.Common.{
  String, List, [], ◌∷◌, Option, none, some, if◌then◌else◌, ◌==◌, string_eq, not, Go, ok, err,
  errorf, ◌>>=◌, wrap_err,
}
use kapacity.Common.Int.{ℤ}
use kapacity.Common.Keyed.{find_key}
use kapacity.Util.Selector.{Selector}
use kapacity.Metric.Data.{
  GroupKind, PodResourceQuery, WorkloadResourceQuery, ObjectQuery, ExternalQuery,
  WorkloadExternalQuery, Query, pod_resource_query, container_resource_query,
  workload_resource_query, workload_container_resource_query, object_query, external_query,
  workload_external_query,
}
use kapacity.Prometheus.Naming.{group_kind_eq, CustomMetricInfo, Selectors, MetricsQuery}
use kapacity.Scale.{GroupResource}
use kapacity.Prometheus.Registry.{
  ObjectInfos, ExternalInfos, query_object_metric, query_external_metric,
}

pub record ResourceQuery (S : Type 0) : Type 0 where
  pub container_query : MetricsQuery S
  pub ready_pods_only_container_query : MetricsQuery S
  pub container_label : String

-- What a provider is made of, and what it has learnt of the series.
pub record Building (S : Type 0) : Type 0 where
  pub selectors : Selectors S
  pub list_pods : (namespace : String) → Selector → Go (List String)
  pub rest_mapping : GroupKind → Go GroupResource
  pub list_object_names : (namespace : String) → Selector → CustomMetricInfo → Go (List String)
  pub normalized : CustomMetricInfo → Go CustomMetricInfo
  pub sprintf : (pattern name : String) → String
  pub workload_pod_name_pattern_map : List (GroupKind × String)
  pub cpu_query : ResourceQuery S
  pub mem_query : ResourceQuery S
  pub resource_query_window : ℤ
  pub object_infos : ObjectInfos S
  pub external_infos : ExternalInfos S

-- A query and the window of its samples.
abbrev pub PromQuery : Type 0
PromQuery = String × Option ℤ

abbrev pub label_pod_name : String
label_pod_name = "pod"

abbrev pub label_namespace : String
label_namespace = "namespace"

abbrev pods_resource : GroupResource
pods_resource = record { group = ""; resource = "pods" }

-- The names that are asked for: one, or those that a selector lists.
abbrev pub names_or_listed :
    (name : String) → Option Selector → (Selector → Go (List String)) → Go (List String)
names_or_listed name selector list = if not (name == "") then ok (name ∷ []) else elim selector [
  | none ↦ err (errorf "either name or selector should be specified in query" [])
  | some s ↦ list s
]

module _ {S : Type 0} (p : Building S) where
  unfoldable pub resource_query_of : (resource : String) → Go (ResourceQuery S)
  resource_query_of resource =
      if resource == "cpu"
      then ok p.cpu_query
      else if resource == "memory"
      then ok p.mem_query
      else err (errorf "unsupported resource %q" (resource ∷ []))

  unfoldable pub container_selector : ResourceQuery S → (container_name : String) → S
  container_selector rq container_name =
      if not (container_name == "")
      then p.selectors.from_set rq.container_label container_name
      else p.selectors.everything

  unfoldable pub build_pod_resource_prom_query :
      PodResourceQuery → (container_name : String) → Go PromQuery
  unfolding resource_query_of container_selector
  build_pod_resource_prom_query prq container_name = do
    rq ← resource_query_of prq.resource_name
    pod_names ← names_or_listed prq.name prq.selector λ s.
        wrap_err "failed to list pods in namespace %q with label selector %q" (prq.namespace ∷ [])
          (p.list_pods prq.namespace s)
    q ←
        rq.container_query.build pods_resource prq.namespace (container_selector rq container_name)
          pod_names
    ok (q, some p.resource_query_window)

  -- The pattern of the pods of a workload.
  unfoldable pub pod_name_pattern : GroupKind → (name : String) → Go String
  pod_name_pattern kind name = elim (find_key kind p.workload_pod_name_pattern_map) [
    | none ↦ err (errorf "unknown workload type %q" (kind.kind ∷ []))
    | some pattern ↦ ok (p.sprintf pattern name)
  ]

  unfoldable pub build_workload_resource_prom_query :
      WorkloadResourceQuery → (container_name : String) → Go PromQuery
  unfolding resource_query_of container_selector pod_name_pattern
  build_workload_resource_prom_query wrq container_name = do
    rq ← resource_query_of wrq.resource_name
    pattern ← pod_name_pattern wrq.group_kind wrq.name
    let selector =
        p.selectors.add_in (container_selector rq container_name) label_pod_name (pattern ∷ [])
    let container_query =
        (if wrq.ready_pods_only then rq.ready_pods_only_container_query else rq.container_query)
    q ← container_query.build_external wrq.namespace label_namespace selector
    ok (q, some p.resource_query_window)

  unfoldable pub build_object_prom_query : ObjectQuery → Go PromQuery
  build_object_prom_query oq = do
    resource ←
        wrap_err "failed to map kind %q to resource" (oq.group_kind.kind ∷ [])
          (p.rest_mapping oq.group_kind)
    let info : CustomMetricInfo = record {
      group_resource = resource;
      namespaced = not (oq.namespace == "");
      metric = oq.metric.name;
    }
    selector ←
        wrap_err "failed to parse metric selector as label selector" []
          (p.selectors.from_label_selector oq.metric.selector)
    object_names ← names_or_listed oq.name oq.selector λ s.
        wrap_err "failed to list objects of kind %q in namespace %q with label selector %q"
          (oq.group_kind.kind ∷ oq.namespace ∷ []) (p.list_object_names oq.namespace s info)
    q ← query_object_metric p.normalized p.object_infos info oq.namespace selector object_names
    ok (q, none)

  unfoldable pub build_external_prom_query : ExternalQuery → Go PromQuery
  build_external_prom_query eq = do
    selector ←
        wrap_err "failed to parse metric selector as label selector" []
          (p.selectors.from_label_selector eq.metric.selector)
    q ← query_external_metric p.external_infos eq.namespace eq.metric.name selector
    ok (q, none)

  unfoldable pub build_workload_external_prom_query : WorkloadExternalQuery → Go PromQuery
  unfolding pod_name_pattern
  build_workload_external_prom_query weq = do
    pattern ← pod_name_pattern weq.group_kind weq.name
    selector ← elim weq.metric.selector [
      | none ↦ ok p.selectors.everything
      | some s ↦
          wrap_err "failed to parse metric selector as label selector" []
            (p.selectors.from_label_selector (some s))
    ]
    q ←
        query_external_metric p.external_infos weq.namespace weq.metric.name
          (p.selectors.add_in selector label_pod_name (pattern ∷ []))
    ok (q, none)

  unfoldable pub build_prom_query : Query → Go PromQuery
  unfolding build_pod_resource_prom_query build_workload_resource_prom_query build_object_prom_query
      build_external_prom_query build_workload_external_prom_query
  build_prom_query (pod_resource_query q) = build_pod_resource_prom_query q ""
  build_prom_query (container_resource_query q container) =
      build_pod_resource_prom_query q container
  build_prom_query (workload_resource_query q) = build_workload_resource_prom_query q ""
  build_prom_query (workload_container_resource_query q container) =
      build_workload_resource_prom_query q container
  build_prom_query (object_query q) = build_object_prom_query q
  build_prom_query (external_query q) = build_external_prom_query q
  build_prom_query (workload_external_query q) = build_workload_external_prom_query q
