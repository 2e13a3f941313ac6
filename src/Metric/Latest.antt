-- ===== src/Metric/Latest.antt =====
-- The metrics of the pods that metrics_client.go makes of samples.
use Prim.Native.String.{String}
use kapacity.Common.{
  Bool, true, false, List, [], ◌∷◌, Option, none, some, if◌then◌else◌, ◌==◌, string_eq, ◌≡◌, refl,
  ap, ◌∙◌, sym, select, not, ◌&&◌, ◌||◌,
}
use mathlib.Core.Option
use kapacity.Common.Time.{Time}
use kapacity.Common.Int.{ℤ, pos}
use kapacity.Common.Dict.{find, find-put, text_at}
use kapacity.Common.Dict.Copy.{over}
use kapacity.Metric.Data.{Sample}
use kapacity.Metric.Client.{
  PodMetric, PodMetricsInfo, Floats, resource_metric, raw_metric, enter, resource_metric_of, pod_of,
  metric_at, window_or_minute, raw_value, resource_value, build_info,
  build_resource_pod_metrics_info_from_samples, build_pod_metrics_info_from_samples,
}

-- The metric, if it is one of the pod.
abbrev pub about : (pod : String) → Option (String × PodMetric) → Option PodMetric
about pod none = none
about pod (some (p, m)) = if p == pod then some m else none

over-over : {V : Type 0} (a b c : Option V) → over a (over b c) ≡ over (over a b) c
over-over none b c = refl
over-over (some v) b c = refl

no_rest : {V : Type 0} (a : Option V) → over a none ≡ a
no_rest none = refl
no_rest (some v) = refl

enter_lem :
    (pod : String) (r : Option (String × PodMetric)) (info : PodMetricsInfo)
    → find pod (enter r info) ≡ over (about pod r) (find pod info)
enter_lem pod none info = refl
enter_lem pod (some (p, m)) info = find-put p pod m info ∙ chosen (p == pod) m (find pod info)
  where
    chosen :
        (b : Bool) (v : PodMetric) (o : Option PodMetric)
        → (if b then some v else o) ≡ over (if b then some v else none) o
    chosen true v o = refl
    chosen false v o = refl

abbrev pub last_of : {A : Type 0} → List A → Option A
last_of [] = none
last_of (x ∷ xs) = over (last_of xs) (some x)

abbrev pub has_window : Option ℤ → Bool
has_window none = false
has_window (some w) = true

abbrev pub window_or : (otherwise : ℤ) → Option ℤ → ℤ
window_or otherwise none = otherwise
window_or otherwise (some w) = w

over-last_of :
    {A B : Type 0} (f : A → B) (x : A) (xs : List A)
    → Option.map f (last_of (x ∷ xs)) ≡ over (Option.map f (last_of xs)) (some (f x))
over-last_of {A = A} f x xs = chosen (last_of xs)
  where
    chosen : (o : Option A) → Option.map f (over o (some x)) ≡ over (Option.map f o) (some (f x))
    chosen none = refl
    chosen (some y) = refl

module _ {Float : Type 0} where
  -- The loop enters the last sample that is chosen for the pod.
  build_info-last_of :
      (read : Sample Float → Option (String × PodMetric)) (pod : String)
      (chosen : Sample Float → Bool) (reading : Sample Float → PodMetric)
      → ((s : Sample Float) → about pod (read s) ≡ (if chosen s then some (reading s) else none))
      → (samples : List (Sample Float)) (info : PodMetricsInfo)
      → find pod (build_info read samples info)
        ≡ over (Option.map reading (last_of (select chosen samples))) (find pod info)
  unfolding build_info
  build_info-last_of read pod chosen reading agrees [] info = refl
  build_info-last_of read pod chosen reading agrees (s ∷ samples) info =
      build_info-last_of read pod chosen reading agrees samples (enter (read s) info)
      ∙ ap (over rest) (enter_lem pod (read s) info)
      ∙ over-over rest (about pod (read s)) (find pod info)
      ∙ ap (λ o. over o (find pod info)) (ap (over rest) (agrees s) ∙ taken (chosen s) refl)
    where
      rest : Option PodMetric
      rest = Option.map reading (last_of (select chosen samples))

      taken :
          (b : Bool)
          → chosen s ≡ b
          → over rest (if b then some (reading s) else none)
            ≡ Option.map reading (last_of (select chosen (s ∷ samples)))
      taken true e = rw e (sym (over-last_of reading s (select chosen samples)))
      taken false e = rw e (no_rest rest)

  module _ (floats : Floats Float) (time_of : ℤ → Time) (pod : String) where
    -- A resource: a sample without a window says nothing, and a value that is no number or is
    -- negative counts as zero.
    abbrev pub tells_resource : Sample Float → Bool
    tells_resource s =
        not (text_at "pod" s.labels == "") && (has_window s.window && text_at "pod" s.labels == pod)

    abbrev pub resource_reading : Sample Float → PodMetric
    resource_reading s = record {
      timestamp = time_of s.point.timestamp;
      window = window_or (pos 0) s.window;
      value =
          if floats.is_nan s.point.value || floats.is_negative s.point.value
          then pos 0
          else floats.milli s.point.value;
    }

    -- Another metric: a sample without a window counts for a minute, in nanoseconds, and a value
    -- that is no number counts as zero.
    abbrev pub tells_raw : Sample Float → Bool
    tells_raw s = not (text_at "pod" s.labels == "") && text_at "pod" s.labels == pod

    abbrev pub raw_reading : Sample Float → PodMetric
    raw_reading s = record {
      timestamp = time_of s.point.timestamp;
      window = window_or (pos 60_000_000_000) s.window;
      value = if floats.is_nan s.point.value then pos 0 else floats.milli s.point.value;
    }

    resource_lem :
        (s : Sample Float)
        → about pod (resource_metric floats time_of s)
          ≡ (if tells_resource s then some (resource_reading s) else none)
    unfolding resource_metric resource_value
    resource_lem s = by_label (text_at "pod" s.labels == "") s.window
      where
        by_label :
            (b : Bool) (o : Option ℤ)
            → about pod (if b then none else resource_metric_of floats time_of s o) ≡ (
                if not b && (has_window o && text_at "pod" s.labels == pod)
                then some (record (resource_reading s) { window = window_or (pos 0) o })
                else none)
        by_label true o = refl
        by_label false none = refl
        by_label false (some w) = refl

    raw_lem :
        (s : Sample Float)
        → about pod (raw_metric floats time_of s)
          ≡ (if tells_raw s then some (raw_reading s) else none)
    unfolding raw_metric raw_value
    raw_lem s = by_label (text_at "pod" s.labels == "") s.window
      where
        by_label :
            (b : Bool) (o : Option ℤ)
            → about pod (
                if b
                then none
                else some (
                  pod_of floats time_of s,
                  metric_at floats time_of s
                      (window_or_minute floats time_of o)
                      (raw_value floats time_of s.point.value),
                ))
              ≡ (if not b && text_at "pod" s.labels == pod
                  then some (record (raw_reading s) { window = window_or (pos 60_000_000_000) o })
                  else none)
        by_label true o = refl
        by_label false none = refl
        by_label false (some w) = refl

    -- The metric of a pod is read from the last sample that has the pod's name as its label, which
    -- is not empty; a pod without such a sample has none. For resources only samples with a
    -- window count, and a value that is no number or is negative counts as zero. For other metrics
    -- a sample without a window has a window of 60 seconds, and only a value that is no number
    -- counts as zero.
    pub build_pod_metrics_info-latest :
        (samples : List (Sample Float))
        → (find pod (build_resource_pod_metrics_info_from_samples floats time_of samples)
            ≡ Option.map resource_reading (last_of (select tells_resource samples)))
          × (find pod (build_pod_metrics_info_from_samples floats time_of samples)
              ≡ Option.map raw_reading (last_of (select tells_raw samples)))
    unfolding build_resource_pod_metrics_info_from_samples build_pod_metrics_info_from_samples find
    build_pod_metrics_info-latest samples = (
      build_info-last_of (resource_metric floats time_of) pod tells_resource resource_reading
            resource_lem samples []
          ∙ no_rest (Option.map resource_reading (last_of (select tells_resource samples))),
      build_info-last_of (raw_metric floats time_of) pod tells_raw raw_reading raw_lem samples []
          ∙ no_rest (Option.map raw_reading (last_of (select tells_raw samples))),
    )
