-- ===== src/Reactive/Justified.antt =====
-- The replicas that the reactive generator computes, against the proposals of the metrics.
use kapacity.Common.{
  true, ◌&&◌, List, [], ◌∷◌, length, ltb, eqb, All, Any, Bool-cases, inl, inr, ◌⊎◌, Go, ok, err,
  panic, ◌≡◌, arith, ◌>>=◌,
}
use kapacity.Common.Int.{ℤ, pos, ◌≤ℤ◌, ltb_ℤ}
use kapacity.Api.Metrics.{MetricSpec}
use kapacity.Reactive.Generator.{Tally, tally, start, conclude, compute_replicas}
use kapacity.Reactive.Counted.{Valid, Fails, Covers, Counted, Ends, tally-Ends}

module _ (propose : MetricSpec → Go ℤ) where
  -- What a result says of the metrics.
  abbrev pub Justified : (spec_replicas : ℤ) → List MetricSpec → Go ℤ → Type 0
  Justified spec_replicas ms (ok r) =
      (pos 1 ≤ℤ r)
      × Covers propose r ms
      × ((r ≡ pos 1) ⊎ Any (λ m. Valid propose m r) ms)
      × Any (λ m. (p : ℤ) × Valid propose m p) ms
      × (Any (Fails propose) ms → spec_replicas ≤ℤ r)
  Justified spec_replicas ms (err e) =
      All (Fails propose) ms
      ⊎ (Any (Fails propose) ms
          × (ltb_ℤ (pos 1) spec_replicas ≡ true)
          × All (λ m. (p : ℤ) → Valid propose m p → ltb_ℤ p spec_replicas ≡ true) ms)
  Justified spec_replicas ms panic = Any (λ m. propose m ≡ panic) ms

  -- What is said of every proposal up to r is said of those below a number above r.
  beneath :
      (r spec_replicas : ℤ) (ms : List MetricSpec)
      → ltb_ℤ r spec_replicas ≡ true
      → Covers propose r ms
      → All (λ m. (p : ℤ) → Valid propose m p → ltb_ℤ p spec_replicas ≡ true) ms
  beneath r spec_replicas [] h c = tt
  beneath r spec_replicas (m ∷ ms) h c =
      (λ p v. ground (arith, h, c.0 p v), beneath r spec_replicas ms h c.1)

  conclude-Justified :
      (spec_replicas : ℤ) (ms : List MetricSpec) (u : Tally)
      → Counted propose start u ms
      → Justified spec_replicas ms (conclude spec_replicas (length ms) u)
  unfolding conclude
  conclude-Justified spec_replicas ms u c = elim (Bool-cases (eqb u.invalid (length ms))) [
    | inl all ↦ rw all (inl (c.all_failed (ground (arith, all))))
    | inr e ↦ elim (Bool-cases (ltb 0 u.invalid && ltb_ℤ u.replicas spec_replicas)) [
      | inl both ↦
          rw (e, both)
            (inr (
              c.failed (ground (arith, both)),
              ground (arith, both, c.grows),
              beneath u.replicas spec_replicas ms (ground (arith, both)) c.covers,
            ))
      | inr enough ↦
          rw (e, enough)
            (
              c.grows,
              c.covers,
              c.proposed,
              c.valid (ground (arith, e, c.bounded)),
              λ f. ground (arith, enough, c.some_failed f),
            )
    ]
  ]

  justified :
      (spec_replicas : ℤ) (ms : List MetricSpec) (r : Go Tally)
      → Ends propose start ms r
      → Justified spec_replicas ms (r >>= conclude spec_replicas (length ms))
  justified spec_replicas ms (ok u) h = conclude-Justified spec_replicas ms u h
  justified spec_replicas ms (err e) h = absurd h
  justified spec_replicas ms panic h = h

  -- The replicas that are computed are at least 1 and at least every valid proposal, and they are 1
  -- or one of the proposals; some metric is valid, and if one fails, the target is not scaled
  -- down. An error means that every metric fails, which holds of no metrics, or that one fails
  -- while 1 and all valid proposals are below the current replicas. A panic is one of a metric.
  pub compute_replicas-Justified :
      (spec_replicas : ℤ) (ms : List MetricSpec)
      → Justified spec_replicas ms (compute_replicas propose spec_replicas ms)
  unfolding compute_replicas
  compute_replicas-Justified spec_replicas ms =
      justified spec_replicas ms (tally propose start ms) (tally-Ends propose start ms)
