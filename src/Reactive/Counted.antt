-- ===== src/Reactive/Counted.antt =====
-- The loop of GenerateHorizontal over the metrics, by what each metric proposes.
use kapacity.Common.{
  ◌≤◌, ◌<◌, ◌+◌, List, [], ◌∷◌, length, All, Any, Bool-cases, inl, inr, ◌⊎◌, Go, ok, err, panic,
  Error, ◌≡◌, refl, sym, ap, ◌∙◌, subst, arith,
}
use kapacity.Common.Int.{ℤ, ◌≤ℤ◌, ltb_ℤ}
use kapacity.Api.Metrics.{MetricSpec}
use kapacity.Reactive.Generator.{Tally, count_proposal, count_failure, tally}

le_trans : (a b c : ℤ) → a ≤ℤ b → b ≤ℤ c → a ≤ℤ c
le_trans a b c h k = omega (arith, h, k)

same_value : (p q : ℤ) → ok p ≡ ok q → p ≡ q
same_value p q e = cc e

module _ (propose : MetricSpec → Go ℤ) where
  abbrev pub Valid : MetricSpec → ℤ → Type 0
  Valid m p = propose m ≡ ok p

  abbrev pub Fails : MetricSpec → Type 0
  Fails m = (e : Error) × (propose m ≡ err e)

  -- No proposal is above the replicas.
  abbrev pub Covers : ℤ → List MetricSpec → Type 0
  Covers r ms = All (λ m. (p : ℤ) → Valid m p → p ≤ℤ r) ms

  -- What the loop has done with the metrics ms, from t to u.
  pub record Counted (t u : Tally) (ms : List MetricSpec) : Type 0 where
    pub grows : t.replicas ≤ℤ u.replicas
    pub covers : Covers u.replicas ms
    pub proposed : (u.replicas ≡ t.replicas) ⊎ Any (λ m. Valid m u.replicas) ms
    pub more : t.invalid ≤ u.invalid
    pub bounded : u.invalid ≤ t.invalid + length ms
    pub failed : t.invalid < u.invalid → Any Fails ms
    pub valid : u.invalid < t.invalid + length ms → Any (λ m. (p : ℤ) × Valid m p) ms
    pub all_failed : t.invalid + length ms ≤ u.invalid → All Fails ms
    pub some_failed : Any Fails ms → t.invalid < u.invalid

  count_proposal_lem :
      (t : Tally) (p : ℤ)
      → (t.replicas ≤ℤ (count_proposal t p).replicas)
        × (p ≤ℤ (count_proposal t p).replicas)
        × (((count_proposal t p).replicas ≡ t.replicas) ⊎ ((count_proposal t p).replicas ≡ p))
        × ((count_proposal t p).invalid ≡ t.invalid)
  unfolding count_proposal
  count_proposal_lem t p = elim (Bool-cases (ltb_ℤ t.replicas p)) [
    | inl e ↦ rw e (ground (arith, e), ground (arith, e), inr refl, refl)
    | inr e ↦ rw e (ground (arith, e), ground (arith, e), inl refl, refl)
  ]

  of_nothing : (t : Tally) → Counted t t []
  of_nothing t = record {
    grows = omega arith;
    covers = tt;
    proposed = inl refl;
    more = omega arith;
    bounded = omega arith;
    failed = λ h. absurd (omega (arith, h));
    valid = λ h. absurd (omega (arith, h));
    all_failed = λ h. tt;
    some_failed = λ h. absurd h;
  }

  with_proposal :
      (t u : Tally) (m : MetricSpec) (ms : List MetricSpec) (p : ℤ)
      → Valid m p
      → Counted (count_proposal t p) u ms
      → Counted t u (m ∷ ms)
  with_proposal t u m ms p e c =
      let step = count_proposal_lem t p in
      record {
        grows = omega (arith, step.0, c.grows);
        covers = (
          λ q same.
              subst (λ v. v ≤ℤ u.replicas) (same_value p q (sym e ∙ same))
                (le_trans p (count_proposal t p).replicas u.replicas step.1 c.grows),
          c.covers,
        );
        proposed = elim c.proposed [
          | inl same ↦ elim step.2 [
            | inl keep ↦ inl (same ∙ keep)
            | inr took ↦ inr (inl (e ∙ ap ok (sym (same ∙ took))))
          ]
          | inr some ↦ inr (inr some)
        ];
        more = omega (arith, step.3, c.more);
        bounded = omega (arith, step.3, c.bounded);
        failed = λ h. inr (c.failed (omega (arith, step.3, h)));
        valid = λ h. inl (p, e);
        all_failed = λ h. absurd (omega (arith, step.3, h, c.bounded));
        some_failed = λ h. elim h [
          | inl f ↦ cc (sym e ∙ f.1)
          | inr later ↦ omega (arith, step.3, c.some_failed later)
        ];
      }

  with_failure :
      (t u : Tally) (m : MetricSpec) (ms : List MetricSpec) (e : Error)
      → propose m ≡ err e
      → Counted (count_failure t e) u ms
      → Counted t u (m ∷ ms)
  unfolding count_failure
  with_failure t u m ms e f c = record {
    grows = c.grows;
    covers = (λ q same. cc (sym f ∙ same), c.covers);
    proposed = elim c.proposed [ inl same ↦ inl same | inr some ↦ inr (inr some) ];
    more = omega (arith, c.more);
    bounded = omega (arith, c.bounded);
    failed = λ h. inl (e, f);
    valid = λ h. inr (c.valid (omega (arith, h)));
    all_failed = λ h. ((e, f), c.all_failed (omega (arith, h)));
    some_failed = λ h. omega (arith, c.more);
  }

  abbrev pub Ends : Tally → List MetricSpec → Go Tally → Type 0
  Ends t ms (ok u) = Counted t u ms
  Ends t ms (err e) = ⊥
  Ends t ms panic = Any (λ m. propose m ≡ panic) ms

  after_proposal :
      (t : Tally) (m : MetricSpec) (ms : List MetricSpec) (p : ℤ) (r : Go Tally)
      → Valid m p
      → Ends (count_proposal t p) ms r
      → Ends t (m ∷ ms) r
  after_proposal t m ms p (ok u) e h = with_proposal t u m ms p e h
  after_proposal t m ms p (err d) e h = h
  after_proposal t m ms p panic e h = inr h

  after_failure :
      (t : Tally) (m : MetricSpec) (ms : List MetricSpec) (d : Error) (r : Go Tally)
      → propose m ≡ err d
      → Ends (count_failure t d) ms r
      → Ends t (m ∷ ms) r
  after_failure t m ms d (ok u) e h = with_failure t u m ms d e h
  after_failure t m ms d (err f) e h = h
  after_failure t m ms d panic e h = inr h

  tally_step :
      (t : Tally) (m : MetricSpec) (ms : List MetricSpec) (r : Go ℤ)
      → propose m ≡ r
      → ((u : Tally) → Ends u ms (tally propose u ms))
      → Ends t (m ∷ ms) (tally propose t (m ∷ ms))
  unfolding tally
  tally_step t m ms (ok p) e later =
      rw (tally, e) (after_proposal t m ms p _ e (later (count_proposal t p)))
  tally_step t m ms (err d) e later =
      rw (tally, e) (after_failure t m ms d _ e (later (count_failure t d)))
  tally_step t m ms panic e later = rw (tally, e) (inl e)

  pub tally-Ends : (t : Tally) (ms : List MetricSpec) → Ends t ms (tally propose t ms)
  unfolding tally
  tally-Ends t [] = of_nothing t
  tally-Ends t (m ∷ ms) = tally_step t m ms (propose m) refl (λ u. tally-Ends u ms)
