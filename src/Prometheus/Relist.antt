-- ===== src/Prometheus/Relist.antt =====
-- What each round of Start in pkg/metric/provider/prometheus/runnable.go does to what is known of the
-- series: updateObjectSeries and updateExternalSeries.
pub mod Registers
use kapacity.Common.{Bool, true, false, String, List, Option, none, some, Go, ok, err, panic, ◌>>=◌}
use kapacity.Common.Dict.{GoMap}
use kapacity.Prometheus.Naming.{PromSeries, MetricNamer}
use kapacity.Prometheus.Registry.{
  ClusterScoped, ObjectInfos, ExternalInfos, set_object_series, set_external_series,
}
use kapacity.Prometheus.Lister.{Arrival, list_all_metrics}

pub record Known (S : Type 0) : Type 0 where
  pub object_infos : ObjectInfos S
  pub external_infos : ExternalInfos S

abbrev pub then_set : {A B : Type 0} → Option (Go A) → (A → Go B) → Option (Go B)
then_set none set = none
then_set (some listed) set = some (listed >>= set)

module _ {S : Type 0} (series : (selector : String) → Go (List (GoMap String))) where
  unfoldable pub update_object_series :
      ClusterScoped → Arrival → List (MetricNamer S) → Option (Go (ObjectInfos S))
  update_object_series scope arrival namers =
      then_set (list_all_metrics series arrival namers)
        (λ slices. set_object_series scope slices namers)

  unfoldable pub update_external_series :
      Arrival → List (MetricNamer S) → Option (Go (ExternalInfos S))
  update_external_series arrival namers =
      then_set (list_all_metrics series arrival namers)
        (λ slices. set_external_series slices namers)

  abbrev external_known : Known S → Option (Go (ExternalInfos S)) → Option (Go (Bool × Known S))
  external_known known none = none
  external_known known (some (ok infos)) = some (ok (true, record known { external_infos = infos }))
  external_known known (some (err e)) = some (ok (false, known))
  external_known known (some panic) = some panic

  abbrev object_known :
      Known S
      → Option (Go (ExternalInfos S))
      → Option (Go (ObjectInfos S))
      → Option (Go (Bool × Known S))
  object_known known external none = none
  object_known known external (some (ok infos)) =
      external_known (record known { object_infos = infos }) external
  object_known known external (some (err e)) = some (ok (false, known))
  object_known known external (some panic) = some panic

  -- One try: whether both updates succeeded. An update that fails leaves what was known.
  unfoldable pub relist :
      ClusterScoped
      → (object_arrival external_arrival : Arrival)
      → (object_namers external_namers : List (MetricNamer S)) → Known S
      → Option (Go (Bool × Known S))
  unfolding update_object_series update_external_series
  relist scope object_arrival external_arrival object_namers external_namers known =
      object_known known (update_external_series external_arrival external_namers)
        (update_object_series scope object_arrival object_namers)
