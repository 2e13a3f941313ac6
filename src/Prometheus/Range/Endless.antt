-- ===== src/Prometheus/Range/Endless.antt =====
-- The loop of promQueryRangeSharding with a step of zero.
use kapacity.Common.{true, false, ℕ, zero, suc, List, Option, none, ◌≡◌, refl, ap, ◌∙◌, arith}
use kapacity.Common.Int.{ℤ, pos, ◌+ℤ◌, ltb_ℤ, int64, int64_pos}
use kapacity.Common.Time.{Time}
use kapacity.Prometheus.Range.{
  Range, and_shards, and_rest, shard_to, shards_from, prom_query_range_sharding,
}
use kapacity.Prometheus.Range.Grid.{add_zero}

int64_zero : (t : ℤ) → t +ℤ int64 (pos 0) ≡ t
int64_zero t = ap (λ u. t +ℤ u) (int64_pos 0 (omega arith)) ∙ add_zero t

asymmetric : (s e : ℤ) → ltb_ℤ s e ≡ true → ltb_ℤ e s ≡ false
asymmetric s e h = ground arith

-- A step of zero, with the start before the end: the loop never ends.
pub prom_query_range_sharding-none :
    (fuel : ℕ) (start end : Time)
    → ltb_ℤ start end ≡ true
    → prom_query_range_sharding fuel start end (pos 0) ≡ none
unfolding prom_query_range_sharding shards_from
prom_query_range_sharding-none zero start end h = refl
prom_query_range_sharding-none (suc fuel) start end h =
    ap (λ reach. shard_to start end (pos 0) reach (ltb_ℤ reach end) (rest (reach +ℤ pos 0)))
      (int64_zero start)
    ∙ ap (λ b. shard_to start end (pos 0) start b (rest (start +ℤ pos 0))) h
    ∙ ap
        (λ u. and_rest (record { start = start; end = start; step = pos 0 }) (ltb_ℤ end u) (rest u))
        (add_zero start)
    ∙ ap (λ b. and_rest (record { start = start; end = start; step = pos 0 }) b (rest start))
        (asymmetric start end h)
    ∙ ap (and_shards (record { start = start; end = start; step = pos 0 }))
        (prom_query_range_sharding-none fuel start end h)
  where
    rest : Time → Option (List Range)
    rest u = shards_from fuel u end (pos 0)
