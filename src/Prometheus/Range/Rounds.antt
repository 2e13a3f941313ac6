-- ===== src/Prometheus/Range/Rounds.antt =====
-- The rounds of promQueryRangeSharding, by the distance to the end.
use kapacity.Common.{
  Bool, true, false, ℕ, suc, ◌+◌, ◌*◌, ◌^◌, ◌≤◌, ◌<◌, List, [], ◌∷◌, Option, some, ◌≡◌, refl, ap,
  ◌∙◌, ltb, arith,
}
use kapacity.Common.Int.{pos, ◌+ℤ◌, ◌*ℤ◌, ltb_ℤ, int64, int64_pos}
use kapacity.Common.Time.{Time}
use kapacity.Prometheus.Range.{
  Range, and_shards, and_rest, shard_to, shards_from, max_points_per_prom_time_series,
}
use kapacity.Prometheus.Range.Grid.{add_pos, before_pos, ltb_lt, ltb_ge}

-- The length of a shard, and the distance to the start of the next.
abbrev pub shard_length : ℕ → ℕ
shard_length step = step * max_points_per_prom_time_series

abbrev pub stride : ℕ → ℕ
stride step = shard_length step + step

abbrev pub span : Time → (d step : ℕ) → Range
span t d step = record { start = t; end = t +ℤ pos d; step = pos step }

times_points :
    (step : ℕ) → pos step *ℤ pos max_points_per_prom_time_series ≡ pos (shard_length step)
times_points step = ground arith

-- One round, by the distance that is left.
module _ (t : Time) (step : ℕ) (short : shard_length step < 2 ^ 63) where
  pub reach_lem :
      t +ℤ int64 (pos step *ℤ pos max_points_per_prom_time_series) ≡ t +ℤ pos (shard_length step)
  reach_lem = rw (times_points step, int64_pos (shard_length step) short) refl

  -- The rest of the shards.
  abbrev rest_at : ℕ → Time → Time → Option (List Range)
  rest_at fuel end reach = shards_from fuel (reach +ℤ pos step) end (pos step)

  by_distance :
      (fuel d : ℕ) (goes_on : Bool)
      → ltb (shard_length step) d ≡ goes_on
      → shards_from (suc fuel) t (t +ℤ pos d) (pos step)
        ≡ shard_to t
            (t +ℤ pos d)
            (pos step)
            (t +ℤ pos (shard_length step))
            goes_on
            (rest_at fuel (t +ℤ pos d) (t +ℤ pos (shard_length step)))
  unfolding shards_from
  by_distance fuel d goes_on e =
      ap
        (λ reach.
          shard_to t (t +ℤ pos d) (pos step) reach (ltb_ℤ reach (t +ℤ pos d))
            (rest_at fuel (t +ℤ pos d) reach))
        reach_lem
      ∙ ap
          (λ b.
            shard_to t (t +ℤ pos d) (pos step) (t +ℤ pos (shard_length step)) b
              (rest_at fuel (t +ℤ pos d) (t +ℤ pos (shard_length step))))
          (before_pos t (shard_length step) d ∙ e)

  complete_lem :
      (d : ℕ) (complete : Bool)
      → ltb d (stride step) ≡ complete
      → ltb_ℤ (t +ℤ pos d) ((t +ℤ pos (shard_length step)) +ℤ pos step) ≡ complete
  complete_lem d complete e =
      ap (λ u. ltb_ℤ (t +ℤ pos d) u) (add_pos t (shard_length step) step)
      ∙ before_pos t d (stride step)
      ∙ e

  pub last_round :
      (fuel d : ℕ)
      → d ≤ shard_length step
      → shards_from (suc fuel) t (t +ℤ pos d) (pos step) ≡ some (span t d step ∷ [])
  last_round fuel d h = by_distance fuel d false (ltb_ge (shard_length step) d h)

  going_on :
      (fuel d : ℕ) (complete : Bool)
      → shard_length step < d
      → ltb d (stride step) ≡ complete
      → shards_from (suc fuel) t (t +ℤ pos d) (pos step)
        ≡ and_rest
            (span t (shard_length step) step)
            complete
            (shards_from fuel (t +ℤ pos (stride step)) (t +ℤ pos d) (pos step))
  going_on fuel d complete h e =
      by_distance fuel d true (ltb_lt (shard_length step) d h)
      ∙ ap
          (λ b.
            and_rest (span t (shard_length step) step) b
              (rest_at fuel (t +ℤ pos d) (t +ℤ pos (shard_length step))))
          (complete_lem d complete e)
      ∙ ap
          (λ u.
            and_rest (span t (shard_length step) step) complete
              (shards_from fuel u (t +ℤ pos d) (pos step)))
          (add_pos t (shard_length step) step)

  pub short_round :
      (fuel d : ℕ)
      → shard_length step < d
      → d < stride step
      → shards_from (suc fuel) t (t +ℤ pos d) (pos step)
        ≡ some (span t (shard_length step) step ∷ [])
  short_round fuel d h k = going_on fuel d true h (ltb_lt d (stride step) k)

  pub full_round :
      (fuel d : ℕ)
      → stride step ≤ d
      → 1 ≤ step
      → shards_from (suc fuel) t (t +ℤ pos d) (pos step)
        ≡ and_shards
            (span t (shard_length step) step)
            (shards_from fuel (t +ℤ pos (stride step)) (t +ℤ pos d) (pos step))
  full_round fuel d h k = going_on fuel d false (omega arith) (ltb_ge d (stride step) h)
