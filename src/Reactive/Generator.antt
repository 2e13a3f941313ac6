-- ===== src/Reactive/Generator.antt =====
-- GenerateHorizontal of pkg/portrait/generator/reactive/generator.go. strconv.ParseFloat, and the
-- type of the floats that it gives, are parameters.
use kapacity.Common.{
  ℕ, suc, ◌*◌, ◌&&◌, ◌||◌, String, List, [], ◌∷◌, Option, none, some, length, ltb, eqb,
  if◌then◌else◌, ◌==◌, string_eq, Go, ok, err, panic, Error, errorf, wrapf, ◌>>=◌, wrap_err,
}
use kapacity.Common.Int.{ℤ, pos, ltb_ℤ}
use kapacity.Common.Time.{second}
use kapacity.Util.Selector.{Selector, parse_scale_selector}
use kapacity.Scale.{ScaleClient, get_scale}
use kapacity.Api.Meta.{TargetRef}
use kapacity.Api.Metrics.{LabelSelector, MetricSpec}
use kapacity.Api.Algorithm.{PortraitAlgorithm, KubeHpaPortraitAlgorithm}
use kapacity.Api.HorizontalPortrait.{HorizontalPortraitData, static_data}
use kapacity.Reactive.Calculator.{ReplicaCalculator, compute_replicas_for_metric}

-- What the loop over the metrics keeps.
pub record Tally : Type 0 where
  pub replicas : ℤ
  pub invalid : ℕ
  pub first : Option Error

abbrev remember : Option Error → Error → Option Error
remember none e = some e
remember (some d) e = some d

unfoldable pub count_proposal : Tally → ℤ → Tally
count_proposal t p = if ltb_ℤ t.replicas p then record t { replicas = p } else t

unfoldable pub count_failure : Tally → Error → Tally
count_failure t e = record t { invalid = suc t.invalid; first = remember t.first e }

-- A panic of a proposal ends the loop.
unfoldable pub tally : (MetricSpec → Go ℤ) → Tally → List MetricSpec → Go Tally
tally propose t [] = ok t
tally propose t (m ∷ ms) = elim (propose m) [
  | ok p ↦ tally propose (count_proposal t p) ms
  | err e ↦ tally propose (count_failure t e) ms
  | panic ↦ panic
]

abbrev pub start : Tally
start = record { replicas = pos 1; invalid = 0; first = none }

-- The first error, which is nil if there is no metric.
abbrev invalid_metrics : Option Error → Error
invalid_metrics none = errorf "invalid metrics (%d invalid out of %d), first error is: %v" []
invalid_metrics (some e) = wrapf "invalid metrics (%d invalid out of %d), first error is: %v" [] e

unfoldable pub conclude : (spec_replicas : ℤ) (metrics : ℕ) → Tally → Go ℤ
conclude spec_replicas metrics t =
    if eqb t.invalid metrics || (ltb 0 t.invalid && ltb_ℤ t.replicas spec_replicas)
    then err (invalid_metrics t.first)
    else ok t.replicas

-- The replicas that the metrics justify.
unfoldable pub compute_replicas : (MetricSpec → Go ℤ) → (spec_replicas : ℤ) → List MetricSpec → Go ℤ
compute_replicas propose spec_replicas metrics =
    tally propose start metrics >>= conclude spec_replicas (length metrics)

-- The parameters of the algorithm.
pub record Settings (Float : Type 0) : Type 0 where
  pub sync_period : ℤ
  pub tolerance : Float
  pub cpu_initialization_period : ℤ
  pub initial_readiness_delay : ℤ

module _ {Float : Type 0} (default_tolerance : Float) (parse_float : String → Go Float)
    (calculator : Settings Float → ReplicaCalculator)
    (as_selector : Option LabelSelector → Go Selector) (parse : String → Go Selector)
    (client : ScaleClient) where
  unfoldable pub settings_of : Option KubeHpaPortraitAlgorithm → Go (Settings Float)
  settings_of none = ok (record {
    sync_period = pos (15 * second);
    tolerance = default_tolerance;
    cpu_initialization_period = pos (300 * second);
    initial_readiness_delay = pos (30 * second);
  })
  settings_of (some cfg) = do
    tolerance ←
        wrap_err "failed to parse tolerance of KubeHPA algorithm to float64" []
          (parse_float cfg.tolerance)
    ok (record {
      sync_period = cfg.sync_period;
      tolerance = tolerance;
      cpu_initialization_period = cfg.cpu_initialization_period;
      initial_readiness_delay = cfg.initial_readiness_delay;
    })

  abbrev static_portrait : ℤ → HorizontalPortraitData
  static_portrait replicas = record { body = static_data replicas; expire_time = none }

  unfoldable pub generate_by :
      (namespace : String)
      → TargetRef
      → List MetricSpec
      → Settings Float
      → Go (HorizontalPortraitData × ℤ)
  generate_by namespace target metrics settings = do
    scale ←
        wrap_err "failed to get the target's current scale" [] (get_scale client namespace target)
    selector ←
        wrap_err "failed to parse label selector %q of target's current scale"
          (scale.0.selector ∷ []) (parse_scale_selector parse scale.0.selector)
    replicas ←
        compute_replicas
          (compute_replicas_for_metric (calculator settings) as_selector scale.0.replicas
            scale.0.status_replicas namespace selector)
          scale.0.replicas metrics
    ok (static_portrait replicas, settings.sync_period)

  -- The data, and the time to wait before the next generation.
  unfoldable pub generate_horizontal :
      (namespace : String)
      → TargetRef
      → List MetricSpec
      → PortraitAlgorithm
      → Go (HorizontalPortraitData × ℤ)
  generate_horizontal namespace target metrics algorithm =
      if algorithm.type == "KubeHPA"
      then settings_of algorithm.kube_hpa >>= generate_by namespace target metrics
      else err (errorf "unsupported algorithm type %q" (algorithm.type ∷ []))
