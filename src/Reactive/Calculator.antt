-- ===== src/Reactive/Calculator.antt =====
-- The replica proposals of pkg/portrait/generator/reactive/generator.go. The ReplicaCalculator of
-- Kubernetes and metav1.LabelSelectorAsSelector are parameters. A nil quantity panics when it is read.
use kapacity.Common.{
  String, [], ◌∷◌, Option, none, some, if◌then◌else◌, ◌==◌, string_eq, Go, ok, err, panic, errorf,
  ◌>>=◌, wrap_err,
}
use kapacity.Common.Int.{ℤ}
use kapacity.Util.Selector.{Selector}
use kapacity.Api.Meta.{TargetRef}
use kapacity.Api.Metrics.{
  LabelSelector, MetricIdentifier, MetricTarget, MetricSource, resource_source,
  container_resource_source, pods_source, object_source, external_source, unknown_source,
  MetricSpec,
}

-- What is called of podautoscaler.ReplicaCalculator, by the replicas that are proposed.
pub record ReplicaCalculator : Type 0 where
  pub get_raw_resource_replicas :
      (current target : ℤ) (resource namespace : String) → Selector → (container : String) → Go ℤ
  pub get_resource_replicas :
      (current utilization : ℤ) (resource namespace : String)
      → Selector
      → (container : String) → Go ℤ
  pub get_metric_replicas :
      (current target : ℤ) (name namespace : String) → Selector → (metric : Selector) → Go ℤ
  pub get_object_metric_replicas :
      (current target : ℤ) (name namespace : String)
      → TargetRef
      → Selector
      → (metric : Selector) → Go ℤ
  pub get_object_per_pod_metric_replicas :
      (status target : ℤ) (name namespace : String) → TargetRef → (metric : Selector) → Go ℤ
  pub get_external_per_pod_metric_replicas :
      (status target : ℤ) (name namespace : String) → Option LabelSelector → Go ℤ
  pub get_external_metric_replicas :
      (current target : ℤ) (name namespace : String) → Option LabelSelector → Selector → Go ℤ

-- `q.MilliValue()`
abbrev pub milli_value : Option ℤ → Go ℤ
milli_value none = panic
milli_value (some q) = ok q

module _ (calc : ReplicaCalculator) (as_selector : Option LabelSelector → Go Selector)
    (spec_replicas status_replicas : ℤ) (namespace : String) (selector : Selector) where
  unfoldable pub compute_replicas_for_resource_metric :
      MetricTarget → (resource container : String) → Go ℤ
  compute_replicas_for_resource_metric target resource container = elim target.average_value [
    | some v ↦
        wrap_err "failed to get %s usage" (resource ∷ [])
          (calc.get_raw_resource_replicas spec_replicas v resource namespace selector container)
    | none ↦ elim target.average_utilization [
      | none ↦ err (
          errorf
            "invalid resource metric source: neither an average utilization target nor an average value (usage) target was set"
            [])
      | some u ↦
          wrap_err "failed to get %s utilization" (resource ∷ [])
            (calc.get_resource_replicas spec_replicas u resource namespace selector container)
    ]
  ]

  abbrev metric_selector : MetricIdentifier → Go Selector
  metric_selector metric =
      wrap_err "failed to parse metric selector as label selector" [] (as_selector metric.selector)

  unfoldable pub compute_replicas_for_pods_metric : MetricTarget → MetricIdentifier → Go ℤ
  compute_replicas_for_pods_metric target metric = do
    by ← metric_selector metric
    value ← milli_value target.average_value
    wrap_err "failed to get pods metric" []
        (calc.get_metric_replicas spec_replicas value metric.name namespace selector by)

  unfoldable pub compute_replicas_for_object_metric :
      MetricTarget → MetricIdentifier → (described : TargetRef) → Go ℤ
  compute_replicas_for_object_metric target metric described = do
    by ← metric_selector metric
    (if target.type == "Value"
        then (do
          value ← milli_value target.value
          wrap_err "failed to get object metric" [] (
              calc.get_object_metric_replicas spec_replicas value metric.name namespace described
                selector by))
        else if target.type == "AverageValue"
        then (do
          value ← milli_value target.average_value
          wrap_err "failed to get object metric" [] (
              calc.get_object_per_pod_metric_replicas status_replicas value metric.name namespace
                described by))
        else err (
            errorf
              "invalid object metric source: neither a value target nor an average value target was set"
              []))

  -- The average value is preferred.
  abbrev external_proposal : MetricIdentifier → (average value : Option ℤ) → Go ℤ
  external_proposal metric (some v) value = wrap_err "failed to get external metric" [] (
      calc.get_external_per_pod_metric_replicas status_replicas v metric.name namespace
        metric.selector)
  external_proposal metric none (some v) = wrap_err "failed to get external metric" [] (
      calc.get_external_metric_replicas spec_replicas v metric.name namespace metric.selector
        selector)
  external_proposal metric none none = err (
      errorf
        "invalid external metric source: neither a value target nor an average value target was set"
        [])

  unfoldable pub compute_replicas_for_external_metric : MetricTarget → MetricIdentifier → Go ℤ
  compute_replicas_for_external_metric target metric =
      external_proposal metric target.average_value target.value

  -- The switch over the type of the source.
  unfoldable pub compute_replicas_for_source : MetricSource → Go ℤ
  compute_replicas_for_source (resource_source name target) =
      compute_replicas_for_resource_metric target name ""
  compute_replicas_for_source (container_resource_source name container target) =
      compute_replicas_for_resource_metric target name container
  compute_replicas_for_source (pods_source metric target) =
      compute_replicas_for_pods_metric target metric
  compute_replicas_for_source (object_source described metric target) =
      compute_replicas_for_object_metric target metric described
  compute_replicas_for_source (external_source metric target) =
      compute_replicas_for_external_metric target metric
  compute_replicas_for_source (unknown_source type) =
      err (errorf "unsupported metric source type %q" (type ∷ []))

  abbrev pub compute_replicas_for_metric : MetricSpec → Go ℤ
  compute_replicas_for_metric metric = compute_replicas_for_source metric.source
