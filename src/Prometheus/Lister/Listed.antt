-- ===== src/Prometheus/Lister/Listed.antt =====
-- The result of listAllMetrics, for any order of arrival.
use kapacity.Common.{
  ◌≤◌, true, String, List, [], ◌∷◌, Option, none, some, All, Any, Go, ok, err, panic, Error, wrapf,
  ◌≡◌, refl, sym, ◌∙◌, ap, subst, inl, inr, Option-cases, arith,
}
use kapacity.Common.Dict.{GoMap, find}
use kapacity.Common.Sets.{has}
use kapacity.Common.Perms.{count, count-permᴰ, length-permᴰ, All-permᴰ}
use kapacity.Prometheus.Naming.{PromSeries, MetricNamer}
use kapacity.Prometheus.Lister.{
  Errs, SelectorSeries, SeriesCache, Arrival, fetched_series, slices_of, launch, after_receive,
  after_launch, list_all_metrics,
}
use kapacity.Prometheus.Lister.Launched.{
  is_nil, is_for, IsErr, IsList, Fails, Sends, IsCovered, Launched, launch-Launched,
}
use kapacity.Prometheus.Lister.Received.{found, IsCache, Received, receive-Received}

nothing-IsCache : (series : (selector : String) → Go (List (GoMap String))) → IsCache series []
unfolding find
nothing-IsCache series k list e = cc

module _ {S : Type 0} (series : (selector : String) → Go (List (GoMap String))) where
  -- One slice for each namer: what it keeps of the series of its own selector.
  abbrev pub SlicesOf : List (MetricNamer S) → List (List PromSeries) → Type 0
  SlicesOf [] [] = Unit
  SlicesOf (n ∷ namers) (slice ∷ slices) =
      ((list : List PromSeries) × (fetched_series series n.selector ≡ ok list)
        × (slice ≡ n.filter_series list))
      × SlicesOf namers slices
  SlicesOf _ _ = ⊥

  abbrev pub Listed : List (MetricNamer S) → Option (Go (List (List PromSeries))) → Type 0
  Listed namers none = ⊥
  Listed namers (some (ok slices)) = SlicesOf namers slices
  Listed namers (some (err e)) =
      (e' : Error) × Fails series namers e'
      × (e ≡ wrapf "unable to update list of all metrics" [] e')
  Listed namers (some panic) = Any (λ n. fetched_series series n.selector ≡ panic) namers

  slices_of-SlicesOf :
      (namers : List (MetricNamer S)) (c : SeriesCache)
      → IsCache series c
      → All (λ n. found (find n.selector c) ≡ true) namers
      → (slices : List (List PromSeries)) × (slices_of namers c ≡ ok slices)
        × SlicesOf namers slices
  unfolding slices_of
  slices_of-SlicesOf [] c h f = ([], refl, tt)
  slices_of-SlicesOf (n ∷ namers) c h (f, g) =
      let (slices, e, s) = slices_of-SlicesOf namers c h g in
      elim (Option-cases (find n.selector c)) [
        | inl q ↦ absurd (let blank = ap found q in cc)
        | inr (list, q) ↦
            (n.filter_series list ∷ slices, rw (q, e) refl, ((list, h n.selector list q, refl), s))
      ]

  covered_found :
      (c : SeriesCache) (lists later : SelectorSeries)
      → ((k : String) → count (is_for k) lists ≡ count (is_for k) later)
      → ((k : String) → 1 ≤ count (is_for k) later → found (find k c) ≡ true)
      → (namers : List (MetricNamer S)) → All (IsCovered series [] lists) namers
      → All (λ n. found (find n.selector c) ≡ true) namers
  unfolding has
  covered_found c lists later same f [] a = tt
  covered_found c lists later same f (n ∷ namers) (a, rest) =
      (f n.selector (covered a), covered_found c lists later same f namers rest)
    where
      covered : IsCovered series [] lists n → 1 ≤ count (is_for n.selector) later
      covered (inl e) = cc
      covered (inr q) = omega (arith, same n.selector)

  after_receive-Listed :
      (arrival : Arrival) (namers : List (MetricNamer S)) (errs : Errs) (lists : SelectorSeries)
      → Sends series [] namers errs lists
      → (r : Option (Go SeriesCache))
      → Received series namers (arrival.errs_order errs) (arrival.series_order lists) [] r
      → Listed namers (after_receive namers r)
  after_receive-Listed arrival namers errs lists s none h = h
  after_receive-Listed arrival namers errs lists s (some (err e)) h = h
  after_receive-Listed arrival namers errs lists s (some panic) h = absurd h
  after_receive-Listed arrival namers errs lists s (some (ok c)) (cache, all_nil, got) =
      let covers = s.covers (
        count-permᴰ is_nil (arrival.errs_perm errs)
        ∙ all_nil
        ∙ sym (length-permᴰ (arrival.errs_perm errs))) in
      let (slices, e, t) = slices_of-SlicesOf namers c cache (
        covered_found c lists (arrival.series_order lists)
          (λ k. count-permᴰ (is_for k) (arrival.series_perm lists)) (λ k q. got k (inr q)) namers
          covers) in
      subst (λ r. Listed namers (some r)) (sym e) t

  after_launch-Listed :
      (arrival : Arrival) (namers : List (MetricNamer S)) (r : Go (Errs × SelectorSeries))
      → Launched series [] namers r
      → Listed namers (after_launch arrival namers r)
  after_launch-Listed arrival namers (err e) h = absurd h
  after_launch-Listed arrival namers panic h = h
  after_launch-Listed arrival namers (ok (errs, lists)) s =
      let p = arrival.errs_perm errs in
      let q = arrival.series_perm lists in
      after_receive-Listed arrival namers errs lists s _ (
        receive-Received series namers namers (arrival.errs_order errs) (arrival.series_order lists)
          [] (omega (arith, length-permᴰ p, s.one_each))
          (sym (count-permᴰ is_nil p) ∙ s.list_each ∙ length-permᴰ q)
          (All-permᴰ (IsErr series namers) p s.errors) (All-permᴰ (IsList series) q s.series_lists)
          (nothing-IsCache series))

  -- In whatever order the answers arrive, listing the metrics does not block. It returns one slice for
  -- each namer, which is what the namer keeps of the series of its own selector, also where
  -- namers share a selector; or an error that wraps that of some namer's selector, and so no slices
  -- unless every selector's series were fetched. It panics only if fetching a selector's series does.
  pub list_all_metrics-Listed :
      (arrival : Arrival) (namers : List (MetricNamer S))
      → Listed namers (list_all_metrics series arrival namers)
  unfolding list_all_metrics
  list_all_metrics-Listed arrival [] = tt
  list_all_metrics-Listed arrival (n ∷ namers) =
      after_launch-Listed arrival (n ∷ namers) (launch series [] (n ∷ namers))
        (launch-Launched series [] (n ∷ namers))
