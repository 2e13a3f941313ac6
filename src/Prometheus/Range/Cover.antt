-- ===== src/Prometheus/Range/Cover.antt =====
-- The shards of promQueryRangeSharding against the range that they cut up.
use native.Mathlib.Nat.{mul-add-div_right, div-le_of_le-mul, div-eq_of_eq-mul_left, div-eq_of_lt-le}
use kapacity.Common.{
  true, false, ℕ, zero, suc, ◌+◌, ◌-◌, ◌*◌, ◌/◌, ◌^◌, ◌≤◌, ◌<◌, List, [], ◌∷◌, ◌++◌, Option, none,
  some, All, ◌≡◌, refl, sym, ap, subst, ◌∙◌, ltb, leb, Bool-cases, inl, inr, arith,
}
use kapacity.Common.Int.{ℤ, pos, pos_part, ◌+ℤ◌, ◌-ℤ◌, ltb_ℤ}
use kapacity.Common.Time.{Time}
use kapacity.Prometheus.Range.{
  Range, and_shards, shard_to, shards_from, prom_query_range_sharding,
  max_points_per_prom_time_series,
}
use kapacity.Prometheus.Range.Grid.{
  grid, evaluations, all_evaluations, IsInLimit, IsForward, not_before, add_pos, distance,
  evaluations-to, grid-append, append_nil,
}
use kapacity.Prometheus.Range.Rounds.{
  shard_length, stride, span, reach_lem, last_round, short_round, full_round,
}

-- What is proved of the shards of a range.
abbrev pub Tiles : Range → List Range → Type 0
Tiles whole rs = (all_evaluations rs ≡ evaluations whole) × All IsInLimit rs

short_limit : (t : Time) (step d : ℕ) → 1 ≤ step → d ≤ shard_length step → IsInLimit (span t d step)
short_limit t step d h k = rw (distance t d) (div-le_of_le-mul step (omega arith))

one_shard :
    (t : Time) (step d e : ℕ)
    → 1 ≤ step
    → d ≤ shard_length step
    → d / step ≡ e / step
    → Tiles (span t e step) (span t d step ∷ [])
unfolding all_evaluations
one_shard t step d e h k q = (
  append_nil (evaluations (span t d step))
      ∙ evaluations-to t step d
      ∙ ap (λ n. grid t step (suc n)) q
      ∙ sym (evaluations-to t step e),
  (short_limit t step d h k, tt),
)

shard_quotient : (step : ℕ) → 1 ≤ step → shard_length step / step ≡ max_points_per_prom_time_series
shard_quotient step h = div-eq_of_eq-mul_left h (omega arith)

-- The evaluations of a whole range are those of its first shard, and then those from the next on.
split_evaluations :
    (t : Time) (step d : ℕ)
    → 1 ≤ step
    → evaluations (span t (stride step + d) step)
      ≡ evaluations (span t (shard_length step) step)
        ++ evaluations (span (t +ℤ pos (stride step)) d step)
split_evaluations t step d h =
    evaluations-to t step (stride step + d)
    ∙ ap (λ n. grid t step n) (counts (d / step) ((stride step + d) / step) quotient)
    ∙ grid-append t step (suc max_points_per_prom_time_series) (suc (d / step))
    ∙ ap
        (λ k.
          grid t step (suc max_points_per_prom_time_series)
          ++ grid (t +ℤ pos k) step (suc (d / step)))
        (omega arith)
    ∙ ap (λ ts. ts ++ grid (t +ℤ pos (stride step)) step (suc (d / step))) (sym first)
    ∙ ap (λ ts. evaluations (span t (shard_length step) step) ++ ts)
        (sym (evaluations-to (t +ℤ pos (stride step)) step d))
  where
    quotient : (stride step + d) / step ≡ suc max_points_per_prom_time_series + d / step
    quotient =
        ap (λ k. (k + d) / step) (omega arith)
        ∙ mul-add-div_right h (suc max_points_per_prom_time_series) d

    counts :
        (q w : ℕ)
        → w ≡ suc max_points_per_prom_time_series + q
        → suc w ≡ suc max_points_per_prom_time_series + suc q
    counts q w e = omega arith

    first :
        evaluations (span t (shard_length step) step)
        ≡ grid t step (suc max_points_per_prom_time_series)
    first =
        evaluations-to t step (shard_length step)
        ∙ ap (λ n. grid t step (suc n)) (shard_quotient step h)

tail-Tiles :
    (t : Time) (step d : ℕ) (rs : List Range)
    → 1 ≤ step
    → Tiles (span (t +ℤ pos (stride step)) d step) rs
    → Tiles (span t (stride step + d) step) (span t (shard_length step) step ∷ rs)
unfolding all_evaluations
tail-Tiles t step d rs h (e, l) = (
  ap (λ ts. evaluations (span t (shard_length step) step) ++ ts) e
      ∙ sym (split_evaluations t step d h),
  (short_limit t step (shard_length step) h (omega arith), l),
)

-- The shards of a range, if its length is within the fuel.
abbrev pub Sharded : (fuel : ℕ) → Range → Type 0
Sharded fuel r = (rs : List Range) × (shards_from fuel r.start r.end r.step ≡ some rs) × Tiles r rs

full_step :
    (t : Time) (step d fuel : ℕ)
    → 1 ≤ step
    → shard_length step < 2 ^ 63
    → Sharded fuel (span (t +ℤ pos (stride step)) d step)
    → Sharded (suc fuel) (span t (stride step + d) step)
full_step t step d fuel h short (rs, e, l) = (
  span t (shard_length step) step ∷ rs,
  full_round t step short fuel (stride step + d) (omega arith) h
      ∙ ap
          (λ u.
            and_shards (span t (shard_length step) step)
              (shards_from fuel (t +ℤ pos (stride step)) u (pos step)))
          (sym (add_pos t (stride step) d))
      ∙ ap (and_shards (span t (shard_length step) step)) e,
  tail-Tiles t step d rs h l,
)

shards_from-Sharded :
    (fuel : ℕ) (t : Time) (step d : ℕ)
    → 1 ≤ step
    → shard_length step < 2 ^ 63
    → d < fuel * stride step
    → Sharded fuel (span t d step)
shards_from-Sharded zero t step d h short enough = absurd (omega arith)
shards_from-Sharded (suc fuel) t step d h short enough =
    elim (Bool-cases (leb d (shard_length step))) [
      | inl e ↦ (
        _,
        last_round t step short fuel d (ground arith),
        one_shard t step d d h (ground arith) refl,
      )
      | inr e ↦ elim (Bool-cases (ltb d (stride step))) [
        | inl f ↦ (
          _,
          short_round t step short fuel d (ground arith) (ground arith),
          one_shard t step (shard_length step) d h (omega arith)
              (same_quotient (ground arith) (ground arith)),
        )
        | inr f ↦
            subst (λ k. Sharded (suc fuel) (span t k step)) (ground arith)
              (full_step t step (d - stride step) fuel h short (
                shards_from-Sharded fuel (t +ℤ pos (stride step)) step (d - stride step) h short
                  (ground arith)))
      ]
    ]
  where
    same_quotient : shard_length step < d → d < stride step → shard_length step / step ≡ d / step
    same_quotient lo hi =
        shard_quotient step h ∙ sym (div-eq_of_lt-le step (omega arith) (omega arith))

-- The shards of a range that is forward are so, too.
forward : (t : Time) (step d : ℕ) → 1 ≤ step → IsForward (span t d step)
forward t step d h = (ground arith, not_before t d)

abbrev Forward : Option (List Range) → Type 0
Forward none = Unit
Forward (some rs) = All IsForward rs

and_shards-Forward :
    (r : Range) (o : Option (List Range)) → IsForward r → Forward o → Forward (and_shards r o)
and_shards-Forward r none h k = tt
and_shards-Forward r (some rs) h k = (h, k)

shards_from-Forward :
    (fuel : ℕ) (t : Time) (step d : ℕ)
    → 1 ≤ step
    → shard_length step < 2 ^ 63
    → Forward (shards_from fuel t (t +ℤ pos d) (pos step))
unfolding shards_from
shards_from-Forward zero t step d h short = tt
shards_from-Forward (suc fuel) t step d h short = elim (Bool-cases (leb d (shard_length step))) [
  | inl e ↦ rw (last_round t step short fuel d (ground arith)) (forward t step d h, tt)
  | inr e ↦ elim (Bool-cases (ltb d (stride step))) [
    | inl f ↦
        rw (short_round t step short fuel d (ground arith) (ground arith))
          (forward t step (shard_length step) h, tt)
    | inr f ↦ rw (full_round t step short fuel d (ground arith) h) (
        and_shards-Forward (span t (shard_length step) step) _
          (forward t step (shard_length step) h)
          (subst (λ u. Forward (shards_from fuel (t +ℤ pos (stride step)) u (pos step)))
            (add_pos t (stride step) (d - stride step) ∙ ap (λ k. t +ℤ pos k) (ground arith))
            (shards_from-Forward fuel (t +ℤ pos (stride step)) step (d - stride step) h short)))
  ]
]

add_distance : (s e : ℤ) → ltb_ℤ e s ≡ false → s +ℤ pos (pos_part (e -ℤ s)) ≡ e
add_distance s e h = ground arith

late : (s e : ℤ) (k : ℕ) → ltb_ℤ e s ≡ true → ltb_ℤ (s +ℤ pos k) e ≡ false
late s e k h = ground arith

no_distance : (s e : ℤ) → ltb_ℤ e s ≡ true → pos_part (e -ℤ s) ≡ 0
no_distance s e h = ground arith

-- The end stands before the start: one shard, without evaluations.
no_points :
    (fuel : ℕ) (s e : Time) (step : ℕ)
    → shard_length step < 2 ^ 63
    → ltb_ℤ e s ≡ true
    → Sharded (suc fuel) (record { start = s; end = e; step = pos step })
unfolding shards_from all_evaluations
no_points fuel s e step short h = (
  record { start = s; end = e; step = pos step } ∷ [],
  ap (λ reach. shard_to s e (pos step) reach (ltb_ℤ reach e) (rest reach)) (reach_lem s step short)
      ∙ ap
          (λ b.
            shard_to s e (pos step) (s +ℤ pos (shard_length step)) b
              (rest (s +ℤ pos (shard_length step))))
          (late s e (shard_length step) h),
  (
    append_nil (evaluations (record { start = s; end = e; step = pos step })),
    (rw (no_distance s e h) (div-le_of_le-mul step (omega arith)), tt),
  ),
)
  where
    rest : Time → Option (List Range)
    rest reach = shards_from fuel (reach +ℤ pos step) e (pos step)

-- For a positive step whose 11000-fold is an int64, and fuel for the length of the range, the loop
-- ends. The instants that Prometheus evaluates for the shards, one shard after the other, are exactly
-- those that it evaluates for the whole range, each one once, and each shard is within the limit of
-- 11000 steps.
pub prom_query_range_sharding-Tiles :
    (fuel step : ℕ) (start end : Time)
    → 1 ≤ step
    → shard_length step < 2 ^ 63
    → pos_part (end -ℤ start) < fuel * stride step
    → (rs : List Range) × (prom_query_range_sharding fuel start end (pos step) ≡ some rs)
      × Tiles (record { start = start; end = end; step = pos step }) rs
unfolding prom_query_range_sharding
prom_query_range_sharding-Tiles zero step start end h short enough = absurd (omega arith)
prom_query_range_sharding-Tiles (suc fuel) step start end h short enough =
    elim (Bool-cases (ltb_ℤ end start)) [
      | inl e ↦ no_points fuel start end step short e
      | inr e ↦
          subst (λ u. Sharded (suc fuel) (record { start = start; end = u; step = pos step }))
            (add_distance start end e)
            (shards_from-Sharded (suc fuel) start step (pos_part (end -ℤ start)) h short enough)
    ]

-- The shards of a range whose end does not stand before its start are of this kind.
pub prom_query_range_sharding-IsForward :
    (fuel step : ℕ) (start end : Time) (rs : List Range)
    → 1 ≤ step
    → shard_length step < 2 ^ 63
    → ltb_ℤ end start ≡ false
    → prom_query_range_sharding fuel start end (pos step) ≡ some rs
    → All IsForward rs
unfolding prom_query_range_sharding
prom_query_range_sharding-IsForward fuel step start end rs h short e found = subst Forward found (
    subst (λ u. Forward (shards_from fuel start u (pos step))) (add_distance start end e)
      (shards_from-Forward fuel start step (pos_part (end -ℤ start)) h short))
