-- ===== src/Metric/Api.antt =====
-- pkg/metric/provider/metricsapi/provider.go: samples of the Kubernetes resource metrics. The client of
-- the metrics API and the division of a number by 1000.0 are parameters. A usage is its MilliValue,
-- and sums of usages do not overflow.
use kapacity.Common.{
  String, List, [], ◌∷◌, Option, none, some, if◌then◌else◌, ◌==◌, string_eq, Go, ok, err, errorf,
  ◌>>=◌, wrap_err,
}
use kapacity.Common.Int.{ℤ, pos, ◌+ℤ◌}
use kapacity.Common.Dict.{find}
use kapacity.Util.Selector.{Selector}
use kapacity.Metric.Data.{
  Query, query_type, pod_resource_query, container_resource_query, Sample, Series,
}

-- metricsv1beta1.ContainerMetrics and PodMetrics; the timestamp is its UnixMilli.
pub record ContainerMetrics : Type 0 where
  pub name : String
  pub usage : List (String × ℤ)

pub record PodMetrics : Type 0 where
  pub namespace : String
  pub name : String
  pub timestamp : ℤ
  pub window : ℤ
  pub containers : List ContainerMetrics

-- What is called of the client.
pub record MetricsClient : Type 0 where
  pub get : (namespace name : String) → Go PodMetrics
  pub list : (namespace : String) → Selector → Go (List PodMetrics)

-- The loop over the containers, which breaks at one without the resource.
unfoldable pub sum_usage : (resource : String) → ℤ → List ContainerMetrics → Option ℤ
sum_usage resource sum [] = some sum
sum_usage resource sum (c ∷ cs) = elim (find resource c.usage) [
  | none ↦ none
  | some v ↦ sum_usage resource (sum +ℤ v) cs
]

-- A pod without containers is missing.
unfoldable pub pod_usage : (resource : String) → List ContainerMetrics → Option ℤ
pod_usage resource [] = none
pod_usage resource (c ∷ cs) = sum_usage resource (pos 0) (c ∷ cs)

-- The first container of the name: whether there is one, and its usage.
unfoldable pub container_usage :
    (resource container : String) → List ContainerMetrics → Option (Option ℤ)
container_usage resource container [] = none
container_usage resource container (c ∷ cs) =
    if c.name == container
    then some (find resource c.usage)
    else container_usage resource container cs

unfoldable pub get_pod_metrics :
    MetricsClient → (namespace name : String) → Option Selector → Go (List PodMetrics)
get_pod_metrics client namespace name selector =
    if name == ""
    then elim selector [
      | none ↦ err (errorf "either name or selector should be specified" [])
      | some s ↦ client.list namespace s
    ]
    else (do m ← client.get namespace name; ok (m ∷ []))

module _ {Float : Type 0} (thousandths : ℤ → Float) where
  unfoldable pub build_sample_from_pod_resource_metric : PodMetrics → ℤ → Sample Float
  build_sample_from_pod_resource_metric m v = record {
    point = record { timestamp = m.timestamp; value = thousandths v };
    labels = some (("pod", m.name) ∷ []);
    window = some m.window;
  }

  abbrev pub with_usage : PodMetrics → Option ℤ → List (Sample Float) → List (Sample Float)
  with_usage m none samples = samples
  with_usage m (some v) samples = build_sample_from_pod_resource_metric m v ∷ samples

  unfoldable pub gen_pod_resource_samples :
      (resource : String) → List PodMetrics → List (Sample Float)
  gen_pod_resource_samples resource [] = []
  gen_pod_resource_samples resource (m ∷ metrics) =
      with_usage m (pod_usage resource m.containers) (gen_pod_resource_samples resource metrics)

  abbrev with_container :
      (container : String)
      → PodMetrics
      → Option (Option ℤ)
      → Go (List (Sample Float))
      → Go (List (Sample Float))
  with_container container m none rest = err (
      errorf "container %q not present in metrics of pod \"%s/%s\""
        (container ∷ m.namespace ∷ m.name ∷ []))
  with_container container m (some usage) rest = do samples ← rest; ok (with_usage m usage samples)

  unfoldable pub gen_container_resource_samples :
      (resource container : String) → List PodMetrics → Go (List (Sample Float))
  gen_container_resource_samples resource container [] = ok []
  gen_container_resource_samples resource container (m ∷ metrics) =
      with_container container m (container_usage resource container m.containers)
        (gen_container_resource_samples resource container metrics)

  unfoldable pub query_latest_metrics : MetricsClient → Query → Go (List (Sample Float))
  query_latest_metrics client (pod_resource_query q) = do
    metrics ←
        wrap_err "failed to get pod metrics" []
          (get_pod_metrics client q.namespace q.name q.selector)
    ok (gen_pod_resource_samples q.resource_name metrics)
  query_latest_metrics client (container_resource_query q container) = do
    metrics ←
        wrap_err "failed to get pod metrics" []
          (get_pod_metrics client q.namespace q.name q.selector)
    gen_container_resource_samples q.resource_name container metrics
  query_latest_metrics client other =
      err (errorf "unsupported query type %q" (query_type other ∷ []))

  unfoldable pub query_metrics : Query → Go (List (Series Float))
  query_metrics query = err (errorf "MetricsAPI does not support this operation" [])
