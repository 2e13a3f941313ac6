-- ===== src/Prometheus/Provider.antt =====
-- QueryLatest and Query of pkg/metric/provider/prometheus/provider.go. The Prometheus API, the clock,
-- the text of a label set, the text of an error and the order of ranging over a map
-- are parameters. The shards are asked for concurrently, and their results are put at the place
-- of their shard, so they are taken in this order here. Errors do not name instants.
pub mod Points
pub mod Stored
pub mod Whole
use kapacity.Common.{
  ℕ, String, List, [], ◌∷◌, ◌++◌, map, Option, none, some, Go, ok, err, panic, Error, errorf, ◌>>=◌,
  wrap_err,
}
use kapacity.Common.Int.{ℤ}
use kapacity.Common.Time.{Time}
use kapacity.Common.Dict.{GoMap, find, put}
use kapacity.Common.Range.{MapRange}
use kapacity.Metric.Data.{Query, Sample, Series}
use kapacity.Prometheus.Query.{Building, PromQuery, build_prom_query}
use kapacity.Prometheus.Range.{Range, prom_query_range_sharding}
use kapacity.Prometheus.Result.{
  PromValue, convert_prom_result_to_samples, convert_prom_result_to_series,
}

-- promapiv1.API
pub record PromApi (Float : Type 0) : Type 0 where
  pub query : (query : String) → Time → Go (PromValue Float)
  pub query_range_at : (query : String) → Range → Go (PromValue Float)

pub record Texts : Type 0 where
  pub label_text : GoMap String → String
  pub error_text : Error → String

abbrev pub SeriesMap : Type 0 → Type 0
SeriesMap Float = List (String × Series Float)

module _ {Float : Type 0} where
  abbrev present : Option (Series Float) → List (Series Float) → List (Series Float)
  present none rest = rest
  present (some series) rest = series ∷ rest

  -- The values of the map at some keys.
  unfoldable pub values_at : List String → SeriesMap Float → List (Series Float)
  values_at [] m = []
  values_at (k ∷ keys) m = present (find k m) (values_at keys m)

module _ {Float : Type 0} (texts : Texts) where
  abbrev pub joined : Option (Series Float) → Series Float → Series Float
  joined none series = series
  joined (some previous) series = record previous { points = previous.points ++ series.points }

  unfoldable pub add_series : List (Series Float) → SeriesMap Float → SeriesMap Float
  add_series [] m = m
  add_series (series ∷ rest) m =
      let key = texts.label_text series.labels in
      add_series rest (put key (joined (find key m) series) m)

  -- The results of the shards in order: the series by their labels, and the errors.
  unfoldable pub merge_shards :
      List (Go (List (Series Float)))
      → SeriesMap Float
      → List Error
      → Go (SeriesMap Float × List Error)
  unfolding add_series
  merge_shards [] m errs = ok (m, errs)
  merge_shards (ok series ∷ shards) m errs = merge_shards shards (add_series series m) errs
  merge_shards (err e ∷ shards) m errs = merge_shards shards m (errs ++ e ∷ [])
  merge_shards (panic ∷ shards) m errs = panic

  unfoldable pub concluded : MapRange → SeriesMap Float × List Error → Go (List (Series Float))
  unfolding values_at
  concluded order (m, []) = ok (values_at (order.range (map (λ entry. entry.0) m)) m)
  concluded order (m, (e ∷ errs)) = err (errorf "%v" (map texts.error_text (e ∷ errs)))

module _ {Float : Type 0} (api : PromApi Float) where
  unfoldable pub query_shard :
      (prom_query : String) → (window : Option ℤ) → Range → Go (List (Series Float))
  query_shard prom_query window shard = do
    value ←
        wrap_err "prom query range failed with query %q" (prom_query ∷ [])
          (api.query_range_at prom_query shard)
    wrap_err "failed to convert prom result %q to metric series" (value.text ∷ [])
        (convert_prom_result_to_series window value)

  -- The series of some shards.
  unfoldable pub query_shards :
      Texts
      → MapRange
      → (prom_query : String) → (window : Option ℤ) → List Range
      → Go (List (Series Float))
  unfolding query_shard merge_shards concluded
  query_shards texts order prom_query window shards =
      merge_shards texts (map (query_shard prom_query window) shards) [] []
      >>= concluded texts order

  module _ {S : Type 0} (building : Building S) where
    unfoldable pub query_latest_prom : (now : Time) → Query → Go (List (Sample Float))
    query_latest_prom now query = do
      q ← wrap_err "failed to build prom queries" [] (build_prom_query building query)
      value ← wrap_err "prom query failed with query %q" (q.0 ∷ []) (api.query q.0 now)
      wrap_err "failed to convert prom result %q to metric samples" (value.text ∷ [])
          (convert_prom_result_to_samples q.1 value)

    abbrev pub sharded :
        Texts → MapRange → PromQuery → Option (List Range) → Option (Go (List (Series Float)))
    sharded texts order q none = none
    sharded texts order (q, window) (some shards) = some (query_shards texts order q window shards)

    abbrev pub built :
        (fuel : ℕ)
        → Texts
        → MapRange
        → (start end : Time) → (step : ℤ) → Go PromQuery
        → Option (Go (List (Series Float)))
    built fuel texts order start end step (err e) = some (err e)
    built fuel texts order start end step panic = some panic
    built fuel texts order start end step (ok q) =
        sharded texts order q (prom_query_range_sharding fuel start end step)

    -- There is no result without enough fuel for the shards.
    unfoldable pub query_prom :
        (fuel : ℕ)
        → Texts
        → MapRange
        → Query
        → (start end : Time) → (step : ℤ) → Option (Go (List (Series Float)))
    unfolding query_shards
    query_prom fuel texts order query start end step =
        built fuel texts order start end step
          (wrap_err "failed to build prom queries" [] (build_prom_query building query))
