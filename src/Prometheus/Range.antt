-- ===== src/Prometheus/Range.antt =====
-- promQueryRangeSharding of pkg/metric/provider/prometheus/provider.go: a time range is cut into
-- shards that Prometheus accepts. An instant does not overflow, a duration is an int64.
pub mod Grid
pub mod Rounds
pub mod Cover
pub mod Endless
use kapacity.Common.{
  Bool, true, false, ◌||◌, ℕ, zero, suc, List, [], ◌∷◌, Option, none, some, not, if◌then◌else◌,
}
use kapacity.Common.Int.{ℤ, pos, ◌+ℤ◌, ◌*ℤ◌, ltb_ℤ, int64}
use kapacity.Common.Time.{Time, before}

abbrev pub max_points_per_prom_time_series : ℕ
max_points_per_prom_time_series = 11_000

-- promapiv1.Range
pub record Range : Type 0 where
  pub start : Time
  pub end : Time
  pub step : ℤ

abbrev pub and_shards : Range → Option (List Range) → Option (List Range)
and_shards r none = none
and_shards r (some rs) = some (r ∷ rs)

-- The rest is needed if the shard is not the last.
abbrev pub and_rest : Range → (complete : Bool) → Option (List Range) → Option (List Range)
and_rest r true rest = some (r ∷ [])
and_rest r false rest = and_shards r rest

abbrev pub shard_to :
    (shard_start end : Time) (step : ℤ) (reach : Time) (goes_on : Bool)
    → Option (List Range)
    → Option (List Range)
shard_to shard_start end step reach true rest =
    and_rest (record { start = shard_start; end = reach; step = step }) (ltb_ℤ end (reach +ℤ step))
      rest
shard_to shard_start end step reach false rest =
    some (record { start = shard_start; end = end; step = step } ∷ [])

-- One round ends at shard_end, and is the last one if this is the end, or if the next would start
-- behind it. The loop has no bound of its own: with too little fuel there is no result.
unfoldable pub shards_from : (fuel : ℕ) (shard_start end : Time) (step : ℤ) → Option (List Range)
shards_from zero shard_start end step = none
shards_from (suc fuel) shard_start end step =
    let reach = shard_start +ℤ int64 (step *ℤ pos max_points_per_prom_time_series) in
    shard_to shard_start end step reach (before reach end)
      (shards_from fuel (reach +ℤ step) end step)

unfoldable pub prom_query_range_sharding :
    (fuel : ℕ) (start end : Time) (step : ℤ) → Option (List Range)
unfolding shards_from
prom_query_range_sharding fuel start end step = shards_from fuel start end step
