-- ===== src/Prometheus/Provider/Whole.antt =====
-- Query of pkg/metric/provider/prometheus/provider.go against one request for the whole range.
use kapacity.Common.{
  false, ℕ, ◌*◌, ◌^◌, ◌≤◌, ◌<◌, String, List, [], ◌∷◌, map, All, Option, some, string_eq, ok,
  wrap_err, ◌≡◌, refl, sym, ap, ◌∙◌,
}
use kapacity.Common.Int.{ℤ, pos, pos_part, ◌-ℤ◌, ltb_ℤ}
use kapacity.Common.Time.{Time}
use kapacity.Common.Dict.{find}
use kapacity.Common.Range.{MapRange}
use kapacity.Common.Sets.{Distinct}
use kapacity.Metric.Data.{Series, Query}
use kapacity.Prometheus.Query.{Building, build_prom_query}
use kapacity.Prometheus.Range.{Range}
use kapacity.Prometheus.Range.Grid.{evaluations, all_evaluations, IsForward, IsInLimit}
use kapacity.Prometheus.Range.Rounds.{shard_length, stride}
use kapacity.Prometheus.Range.Cover.{
  prom_query_range_sharding-Tiles, prom_query_range_sharding-IsForward,
}
use kapacity.Prometheus.Result.{convert_matrix, convert_prom_result_to_series}
use kapacity.Prometheus.Provider.{
  PromApi, Texts, SeriesMap, values_at, concluded, query_shard, query_shards, sharded, built,
  query_prom,
}
use kapacity.Prometheus.Provider.Stored.{
  Stored, streams_at, Answers, points_at, texts_of, collected-streams_at, points_at-append,
  points_at-empty,
}
use kapacity.Prometheus.Provider.Points.{
  points_under, collected_all, add_lists, points_under-add_lists, merge_shards_ok,
}

module _ {Float : Type 0} (stored : Stored Float) (api : PromApi Float) (texts : Texts)
    (prom_query : String) (window : Option ℤ) (answers : Answers stored api prom_query) where
  -- The series of a shard.
  abbrev series_of : Range → List (Series Float)
  series_of r = convert_matrix window (streams_at stored stored.label_sets (evaluations r))

  query_shard_ok :
      (r : Range)
      → IsForward r
      → IsInLimit r
      → query_shard api prom_query window r ≡ ok (series_of r)
  unfolding query_shard convert_prom_result_to_series
  query_shard_ok r f h =
      let (value, e, a) = answers r f h in rw (e, a.type_agrees, a.matrix_agrees) refl

  query_shards_ok :
      (rs : List Range)
      → All IsForward rs
      → All IsInLimit rs
      → map (query_shard api prom_query window) rs ≡ map ok (map series_of rs)
  query_shards_ok [] f h = refl
  query_shards_ok (r ∷ rs) (f, fs) (h, l) = rw (query_shard_ok r f h, query_shards_ok rs fs l) refl

  collected_all-points_at :
      (k : String) (rs : List Range)
      → Distinct (texts_of stored texts stored.label_sets)
      → collected_all texts k (map series_of rs)
        ≡ points_at stored texts k stored.label_sets (all_evaluations rs)
  unfolding all_evaluations
  collected_all-points_at k [] d = sym (points_at-empty stored texts k stored.label_sets)
  collected_all-points_at k (r ∷ rs) d =
      rw (collected-streams_at stored texts window k stored.label_sets (evaluations r)) (
        rw (collected_all-points_at k rs d) (
          sym (
            points_at-append stored texts k stored.label_sets (evaluations r) (all_evaluations rs)
              d)))

  -- The map in which the shards are merged.
  abbrev merged : List Range → SeriesMap Float
  merged rs = add_lists texts (map series_of rs) []

  query_shards-merged :
      (order : MapRange) (rs : List Range)
      → All IsForward rs
      → All IsInLimit rs
      → query_shards api texts order prom_query window rs
        ≡ ok (values_at (order.range (map (λ entry. entry.0) (merged rs))) (merged rs))
  unfolding query_shards concluded
  query_shards-merged order rs f l =
      rw (query_shards_ok rs f l, merge_shards_ok texts (map series_of rs) []) refl

  merged-points_at :
      (k : String) (rs : List Range)
      → Distinct (texts_of stored texts stored.label_sets)
      → points_under k (merged rs) ≡ points_at stored texts k stored.label_sets (all_evaluations rs)
  unfolding find
  merged-points_at k rs d =
      points_under-add_lists texts k (map series_of rs) [] ∙ collected_all-points_at k rs d

  module _ {S : Type 0} (building : Building S) (query : Query)
      (builds : build_prom_query building query ≡ ok (prom_query, window)) where
    -- A query that can be built, a positive step whose 11000-fold is an int64, an end that does not stand
    -- before the start, fuel for the length of the range, and an API that answers each range of this kind
    -- within the limit of Prometheus by the values stored, for label sets of different texts. Then Query returns the series of a map which has, under each
    -- text, exactly the points that one request for the whole range would give, in their order, with
    -- none lost or doubled where the shards meet.
    pub query_prom-points_at :
        (fuel step : ℕ) (order : MapRange) (start end : Time)
        → 1 ≤ step
        → shard_length step < 2 ^ 63
        → ltb_ℤ end start ≡ false
        → pos_part (end -ℤ start) < fuel * stride step
        → Distinct (texts_of stored texts stored.label_sets)
        → (m : SeriesMap Float) × (query_prom api building fuel texts order query start end
              (pos step)
            ≡ some (ok (values_at (order.range (map (λ entry. entry.0) m)) m)))
          × ((k : String)
              → points_under k m
                ≡ points_at stored texts k stored.label_sets
                    (evaluations (record { start = start; end = end; step = pos step })))
    unfolding query_prom
    query_prom-points_at fuel step order start end h short ordered enough d =
        let (rs, e, t) = prom_query_range_sharding-Tiles fuel step start end h short enough in
        let f = prom_query_range_sharding-IsForward fuel step start end rs h short ordered e in
        (
          merged rs,
          ap
                (λ r.
                  built api building fuel texts order start end (pos step)
                    (wrap_err "failed to build prom queries" [] r))
                builds
              ∙ ap (sharded api building texts order (prom_query, window)) e
              ∙ ap some (query_shards-merged order rs f t.1),
          λ k. merged-points_at k rs d ∙ ap (points_at stored texts k stored.label_sets) t.0,
        )
