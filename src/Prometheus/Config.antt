-- ===== src/Prometheus/Config.antt =====
-- metrics_config.go and resource.go of pkg/metric/provider/prometheus, and NewMetricProvider of
-- provider.go. The parts of the configuration that only the Prometheus adapter reads are
-- types of their own, and what the adapter makes of them are parameters. Reading the
-- configuration from a file is left out.
use kapacity.Common.{
  String, List, [], ◌∷◌, Option, none, some, Go, ok, err, errorf, ◌>>=◌, wrap_err,
}
use kapacity.Common.Int.{ℤ}
use kapacity.Common.Keyed.{put_key}
use kapacity.Metric.Data.{GroupKind}
use kapacity.Prometheus.Naming.{group_kind_eq, MetricNamer, MetricsQuery}
use kapacity.Prometheus.Query.{ResourceQuery}

pub record ResourceRule (Resources : Type 0) : Type 0 where
  pub resources : Resources
  pub container_query : String
  pub ready_pods_only_container_query : String
  pub container_label : String

pub record ResourceRules (Resources : Type 0) : Type 0 where
  pub cpu : ResourceRule Resources
  pub memory : ResourceRule Resources
  pub window : ℤ

pub record WorkloadPodNamePattern : Type 0 where
  pub group_kind : GroupKind
  pub pattern : String

pub record MetricsDiscoveryConfig (Resources Rules : Type 0) : Type 0 where
  pub resource_rules : Option (ResourceRules Resources)
  pub rules : Rules
  pub external_rules : Rules
  pub workload_pod_name_patterns : List WorkloadPodNamePattern

-- NewResourceConverter, NewMetricsQuery and NamersFromConfig of the adapter.
pub record Adapter (Resources Rules Converter S : Type 0) : Type 0 where
  pub new_resource_converter : Resources → Go Converter
  pub new_metrics_query : String → Converter → Go (MetricsQuery S)
  pub namers_from_config : Rules → Go (List (MetricNamer S))

-- The fields of MetricProvider that come from the configuration.
pub record MetricProvider (S : Type 0) : Type 0 where
  pub workload_pod_name_pattern_map : List (GroupKind × String)
  pub cpu_query : ResourceQuery S
  pub mem_query : ResourceQuery S
  pub resource_query_window : ℤ
  pub object_metric_namers : List (MetricNamer S)
  pub external_metric_namers : List (MetricNamer S)

unfoldable pub patterns_of :
    List WorkloadPodNamePattern → List (GroupKind × String) → List (GroupKind × String)
patterns_of [] m = m
patterns_of (p ∷ patterns) m = patterns_of patterns (put_key p.group_kind p.pattern m)

module _ {Resources Rules Converter S : Type 0}
    (adapter : Adapter Resources Rules Converter S) where
  unfoldable pub new_resource_query : ResourceRule Resources → Go (ResourceQuery S)
  new_resource_query cfg = do
    converter ←
        wrap_err "unable to construct label-resource converter" []
          (adapter.new_resource_converter cfg.resources)
    container_query ←
        wrap_err "unable to construct container metrics query" []
          (adapter.new_metrics_query cfg.container_query converter)
    ready_pods_only_container_query ←
        wrap_err "unable to construct ready pods only container metrics query" []
          (adapter.new_metrics_query cfg.ready_pods_only_container_query converter)
    ok (record {
      container_query = container_query;
      ready_pods_only_container_query = ready_pods_only_container_query;
      container_label = cfg.container_label;
    })

  abbrev resource_rules_of : Option (ResourceRules Resources) → Go (ResourceRules Resources)
  resource_rules_of none = err (errorf "missing resource rules in metrics discovery config" [])
  resource_rules_of (some rules) = ok rules

  unfoldable pub new_metric_provider :
      MetricsDiscoveryConfig Resources Rules → Go (MetricProvider S)
  unfolding new_resource_query patterns_of
  new_metric_provider config = do
    rules ← resource_rules_of config.resource_rules
    cpu_query ←
        wrap_err "unable to construct querier for CPU metrics" [] (new_resource_query rules.cpu)
    mem_query ←
        wrap_err "unable to construct querier for memory metrics" []
          (new_resource_query rules.memory)
    object_metric_namers ←
        wrap_err "unable to construct object metrics naming scheme from metrics rules" []
          (adapter.namers_from_config config.rules)
    external_metric_namers ←
        wrap_err "unable to construct external metrics naming scheme from metrics rules" []
          (adapter.namers_from_config config.external_rules)
    ok (record {
      workload_pod_name_pattern_map = patterns_of config.workload_pod_name_patterns [];
      cpu_query = cpu_query;
      mem_query = mem_query;
      resource_query_window = rules.window;
      object_metric_namers = object_metric_namers;
      external_metric_namers = external_metric_namers;
    })
