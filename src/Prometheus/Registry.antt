-- ===== src/Prometheus/Registry.antt =====
-- object_series_registry.go and external_series_registry.go of pkg/metric/provider/prometheus: what is
-- known of the series, behind a lock that each operation holds. The normalization of an info by
-- the REST mapper is a parameter, and so are the group resources of namespaces, nodes
-- and persistent volumes. An error names an info by its metric.
use kapacity.Common.{
  Bool, false, ◌||◌, String, List, [], ◌∷◌, Option, none, some, if◌then◌else◌, eqb, length, ◌==◌,
  Go, ok, err, panic, errorf, ◌>>=◌, wrap_err,
}
use kapacity.Common.Dict.{find, put}
use kapacity.Common.Keyed.{find_key, put_key}
use kapacity.Prometheus.Naming.{
  group_resource_eq, CustomMetricInfo, info_eq, PromSeries, MetricNamer,
}
use kapacity.Scale.{GroupResource}

pub record SeriesInfo (S : Type 0) : Type 0 where
  pub series_name : String
  pub namer : MetricNamer S

-- The group resources that are not counted as namespaced.
pub record ClusterScoped : Type 0 where
  pub namespaces : GroupResource
  pub nodes : GroupResource
  pub persistent_volumes : GroupResource

abbrev pub is_cluster_scoped : ClusterScoped → GroupResource → Bool
is_cluster_scoped c r = r == c.namespaces || r == c.nodes || r == c.persistent_volumes

abbrev pub ExternalInfos : Type 0 → Type 0
ExternalInfos S = List (String × SeriesInfo S)

abbrev pub ObjectInfos : Type 0 → Type 0
ObjectInfos S = List (CustomMetricInfo × SeriesInfo S)

module _ {S : Type 0} where
  abbrev pub info_of : MetricNamer S → PromSeries → SeriesInfo S
  info_of namer series = record { series_name = series.name; namer = namer }

  -- A series that cannot be named is skipped.
  abbrev pub add_external :
      MetricNamer S → PromSeries → Go String → ExternalInfos S → Go (ExternalInfos S)
  add_external namer series (ok name) infos = ok (put name (info_of namer series) infos)
  add_external namer series (err e) infos = ok infos
  add_external namer series panic infos = panic

  unfoldable pub add_external_series :
      MetricNamer S → List PromSeries → ExternalInfos S → Go (ExternalInfos S)
  add_external_series namer [] infos = ok infos
  add_external_series namer (series ∷ rest) infos =
      add_external namer series (namer.metric_name_for_series series) infos
      >>= add_external_series namer rest

  -- Over the namers and their series, which come in equal numbers.
  unfoldable pub add_all_external :
      List (List PromSeries) → List (MetricNamer S) → ExternalInfos S → Go (ExternalInfos S)
  unfolding add_external_series
  add_all_external (series ∷ slices) (namer ∷ namers) infos =
      add_external_series namer series infos >>= add_all_external slices namers
  add_all_external _ _ infos = ok infos

  -- SetSeries of the external registry, with the infos that replace those known so far.
  unfoldable pub set_external_series :
      List (List PromSeries) → List (MetricNamer S) → Go (ExternalInfos S)
  unfolding add_all_external
  set_external_series slices namers =
      if eqb (length slices) (length namers)
      then add_all_external slices namers []
      else err (errorf "need one set of series per namer" [])

  abbrev query_external_of : (metric namespace : String) → S → Option (SeriesInfo S) → Go String
  query_external_of metric namespace selector none =
      err (errorf "external metric %q not found" (metric ∷ []))
  query_external_of metric namespace selector (some info) =
      info.namer.query_for_external_series info.series_name namespace selector

  -- QueryForMetric of the external registry.
  unfoldable pub query_external_metric :
      ExternalInfos S → (namespace metric : String) → S → Go String
  query_external_metric infos namespace metric selector =
      query_external_of metric namespace selector (find metric infos)

  module _ (scope : ClusterScoped) where
    unfoldable pub add_resources :
        MetricNamer S
        → PromSeries
        → (namespaced : Bool) → (metric : String) → List GroupResource
        → ObjectInfos S
        → ObjectInfos S
    add_resources namer series namespaced metric [] infos = infos
    add_resources namer series namespaced metric (r ∷ resources) infos =
        add_resources namer series namespaced metric resources (
          put_key
            (record {
              group_resource = r;
              namespaced = if is_cluster_scoped scope r then false else namespaced;
              metric = metric;
            })
            (info_of namer series) infos)

    abbrev pub add_object :
        MetricNamer S
        → PromSeries
        → List GroupResource × Bool
        → Go String
        → ObjectInfos S
        → Go (ObjectInfos S)
    add_object namer series (resources, namespaced) (ok name) infos =
        ok (add_resources namer series namespaced name resources infos)
    add_object namer series resources (err e) infos = ok infos
    add_object namer series resources panic infos = panic

    unfoldable pub add_object_series :
        MetricNamer S → List PromSeries → ObjectInfos S → Go (ObjectInfos S)
    unfolding add_resources
    add_object_series namer [] infos = ok infos
    add_object_series namer (series ∷ rest) infos =
        add_object namer series (namer.resources_for_series series)
          (namer.metric_name_for_series series) infos
        >>= add_object_series namer rest

    unfoldable pub add_all_object :
        List (List PromSeries) → List (MetricNamer S) → ObjectInfos S → Go (ObjectInfos S)
    unfolding add_object_series
    add_all_object (series ∷ slices) (namer ∷ namers) infos =
        add_object_series namer series infos >>= add_all_object slices namers
    add_all_object _ _ infos = ok infos

    -- SetSeries of the object registry.
    unfoldable pub set_object_series :
        List (List PromSeries) → List (MetricNamer S) → Go (ObjectInfos S)
    unfolding add_all_object
    set_object_series slices namers =
        if eqb (length slices) (length namers)
        then add_all_object slices namers []
        else err (errorf "need one set of series per namer" [])

  abbrev query_object_of :
      CustomMetricInfo
      → (namespace : String) → S
      → (names : List String) → Option (SeriesInfo S)
      → Go String
  query_object_of info namespace selector names none =
      err (errorf "metric %v not registered" (info.metric ∷ []))
  query_object_of info namespace selector names (some known) =
      known.namer.query_for_series known.series_name info.group_resource namespace selector names

  -- QueryForMetric of the object registry.
  unfoldable pub query_object_metric :
      (normalized : CustomMetricInfo → Go CustomMetricInfo)
      → ObjectInfos S
      → CustomMetricInfo
      → (namespace : String) → S
      → (names : List String) → Go String
  query_object_metric normalized infos info namespace selector [] = err (
      errorf "no resource names requested while producing a query for metric %v" (info.metric ∷ []))
  query_object_metric normalized infos info namespace selector (name ∷ names) = do
    key ← wrap_err "unable to normalize group resource while producing a query" [] (normalized info)
    query_object_of key namespace selector (name ∷ names) (find_key key infos)
