-- ===== src/Metric/Client.antt =====
-- pkg/portrait/generator/reactive/metrics_client.go: the metrics that the ReplicaCalculator of
-- Kubernetes reads, from a metric provider. The floats of Go, Time of a Prometheus timestamp, the text
-- of a selector, metav1.ParseToLabelSelector and schema.FromAPIVersionAndKind are parameters. The
-- MilliValue of resource.NewMilliQuantity(v) is v.
use kapacity.Common.{
  Bool, ◌*◌, ◌||◌, String, List, [], ◌∷◌, Option, none, some, map, if◌then◌else◌, ◌==◌, string_eq,
  Go, ok, err, errorf, ◌>>=◌, wrap_err,
}
use kapacity.Common.Int.{ℤ, pos}
use kapacity.Common.Time.{Time, second}
use kapacity.Common.Dict.{put, text_at}
use kapacity.Util.Selector.{Selector}
use kapacity.Api.Meta.{TargetRef}
use kapacity.Api.Metrics.{LabelSelector, MetricIdentifier}
use kapacity.Metric.Data.{
  GroupKind, PodResourceQuery, Query, pod_resource_query, container_resource_query, object_query,
  external_query, Sample,
}

-- podautoscalermetrics.PodMetric, of which a PodMetricsInfo has one for each pod.
pub record PodMetric : Type 0 where
  pub timestamp : Time
  pub window : ℤ
  pub value : ℤ

abbrev pub PodMetricsInfo : Type 0
PodMetricsInfo = List (String × PodMetric)

-- The tests on a float64, and `int64(v*1000.0)`.
pub record Floats (Float : Type 0) : Type 0 where
  pub is_nan : Float → Bool
  pub is_negative : Float → Bool
  pub milli : Float → ℤ

abbrev pub enter : Option (String × PodMetric) → PodMetricsInfo → PodMetricsInfo
enter none info = info
enter (some (pod, m)) info = put pod m info

module _ {Float : Type 0} where
  -- The loops over the samples.
  unfoldable pub build_info :
      (Sample Float → Option (String × PodMetric))
      → List (Sample Float)
      → PodMetricsInfo
      → PodMetricsInfo
  build_info read [] info = info
  build_info read (s ∷ samples) info = build_info read samples (enter (read s) info)

module _ {Float : Type 0} (floats : Floats Float) (time_of : ℤ → Time) where
  -- getResourceQuantityFromRawValue, for cpu and memory.
  unfoldable pub resource_value : Float → ℤ
  resource_value v = if floats.is_nan v || floats.is_negative v then pos 0 else floats.milli v

  -- getQuantityFromRawValue
  unfoldable pub raw_value : Float → ℤ
  raw_value v = if floats.is_nan v then pos 0 else floats.milli v

  abbrev pub pod_of : Sample Float → String
  pod_of s = text_at "pod" s.labels

  abbrev pub metric_at : Sample Float → (window value : ℤ) → PodMetric
  metric_at s window value = record {
    timestamp = time_of s.point.timestamp;
    window = window;
    value = value;
  }

  -- What a sample tells of its pod: nothing without the label of the pod, or without a window.
  abbrev pub resource_metric_of : Sample Float → Option ℤ → Option (String × PodMetric)
  resource_metric_of s none = none
  resource_metric_of s (some window) =
      some (pod_of s, metric_at s window (resource_value s.point.value))

  unfoldable pub resource_metric : Sample Float → Option (String × PodMetric)
  resource_metric s = if pod_of s == "" then none else resource_metric_of s s.window

  abbrev pub window_or_minute : Option ℤ → ℤ
  window_or_minute none = pos (60 * second)
  window_or_minute (some w) = w

  unfoldable pub raw_metric : Sample Float → Option (String × PodMetric)
  raw_metric s =
      if pod_of s == ""
      then none
      else some (pod_of s, metric_at s (window_or_minute s.window) (raw_value s.point.value))

  unfoldable pub build_resource_pod_metrics_info_from_samples : List (Sample Float) → PodMetricsInfo
  build_resource_pod_metrics_info_from_samples samples = build_info resource_metric samples []

  unfoldable pub build_pod_metrics_info_from_samples : List (Sample Float) → PodMetricsInfo
  build_pod_metrics_info_from_samples samples = build_info raw_metric samples []

  -- `len(metrics) == 0`, and the timestamp of the first sample.
  abbrev with_first {ℓ} :
      {A : Type ℓ}
      → (missing : String) → (List (Sample Float) → A)
      → List (Sample Float)
      → Go (A × Time)
  with_first missing build [] = err (errorf missing [])
  with_first missing build (s ∷ samples) = ok (build (s ∷ samples), time_of s.point.timestamp)

  module _ (query_latest : Query → Go (List (Sample Float))) (selector_text : Selector → String)
      (parse_to_label_selector : String → Go LabelSelector)
      (group_kind_of : (api_version kind : String) → GroupKind) where
    abbrev pods_of : (resource namespace : String) → Selector → PodResourceQuery
    pods_of resource namespace selector = record {
      namespace = namespace;
      name = "";
      selector = some selector;
      resource_name = resource;
    }

    abbrev resource_metrics : (failed missing : String) → Query → Go (PodMetricsInfo × Time)
    resource_metrics failed missing query = do
      metrics ← wrap_err failed [] (query_latest query)
      with_first missing build_resource_pod_metrics_info_from_samples metrics

    unfoldable pub get_resource_metric :
        (resource namespace : String) → Selector → (container : String) → Go (PodMetricsInfo × Time)
    get_resource_metric resource namespace selector container =
        let query = pods_of resource namespace selector in
        if resource == "cpu" || resource == "memory"
        then (if container == ""
            then resource_metrics "failed to query lastest pod resource metrics"
                "no metrics returned from lastest pod resource metrics query"
                (pod_resource_query query)
            else resource_metrics "failed to query lastest container resource metrics"
                "no metrics returned from lastest container resource metrics query"
                (container_resource_query query container))
        else err (errorf "unsupported resource %q" (resource ∷ []))

    unfoldable pub metric_identifier : (name : String) → Selector → Go MetricIdentifier
    metric_identifier name selector = do
      s ←
          wrap_err "failed to parse metric selector %q to label selector"
            (selector_text selector ∷ []) (parse_to_label_selector (selector_text selector))
      ok (record { name = name; selector = some s })

    unfoldable pub get_raw_metric :
        (name namespace : String) → Selector → (metric : Selector) → Go (PodMetricsInfo × Time)
    get_raw_metric name namespace selector metric = do
      identifier ← metric_identifier name metric
      metrics ← wrap_err "failed to query lastest pod metrics" [] (
          query_latest (
            object_query (record {
              group_kind = record { group = ""; kind = "Pod" };
              namespace = namespace;
              name = "";
              selector = some selector;
              metric = identifier;
            })))
      with_first "no metrics returned from lastest pod metrics query"
          build_pod_metrics_info_from_samples metrics

    -- The value of the first sample.
    abbrev first_value : List (Sample Float) → Go (ℤ × Time)
    first_value [] = err (errorf "no metrics returned from lastest object metrics query" [])
    first_value (s ∷ samples) = ok (raw_value s.point.value, time_of s.point.timestamp)

    unfoldable pub get_object_metric :
        (name namespace : String) → TargetRef → (metric : Selector) → Go (ℤ × Time)
    get_object_metric name namespace target metric = do
      identifier ← metric_identifier name metric
      metrics ← wrap_err "failed to query lastest object metrics" [] (
          query_latest (
            object_query (record {
              group_kind = group_kind_of target.api_version target.kind;
              namespace = namespace;
              name = target.name;
              selector = none;
              metric = identifier;
            })))
      first_value metrics

    unfoldable pub get_external_metric : (name namespace : String) → Selector → Go (List ℤ × Time)
    get_external_metric name namespace selector = do
      identifier ← metric_identifier name selector
      metrics ←
          wrap_err "failed to query lastest external metrics" []
            (query_latest (external_query (record { namespace = namespace; metric = identifier })))
      with_first "no metrics returned from lastest external metrics query"
          (map (λ s. raw_value s.point.value)) metrics
