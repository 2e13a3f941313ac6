-- ===== src/Prometheus/Lister/Launched.antt =====
-- What the goroutines of listAllMetrics send.
use kapacity.Common.{
  ◌≤◌, Bool, true, false, String, List, [], ◌∷◌, Option, none, some, All, Any, length, Go, ok, err,
  panic, Error, ◌>>=◌, ◌==◌, string_eq, ◌≡◌, refl, ◌⊎◌, inl, inr, Bool-cases, arith,
}
use kapacity.Common.Dict.{GoMap, str_iff, str_iff_self}
use kapacity.Common.Sets.{has}
use kapacity.Common.Perms.{count}
use kapacity.Prometheus.Naming.{PromSeries, MetricNamer}
use kapacity.Prometheus.Lister.{Errs, SelectorSeries, fetched_series, sent_result, launch}

abbrev pub is_nil : Option Error → Bool
is_nil none = true
is_nil (some e) = false

abbrev pub is_for : String → Option (String × List PromSeries) → Bool
is_for selector none = false
is_for selector (some (s, list)) = s == selector

nils_bound : (errs : Errs) → count is_nil errs ≤ length errs
nils_bound [] = omega arith
nils_bound (none ∷ errs) = omega (arith, nils_bound errs)
nils_bound (some e ∷ errs) = omega (arith, nils_bound errs)

module _ (series : (selector : String) → Go (List (GoMap String))) where
  abbrev pub IsList : Option (String × List PromSeries) → Type 0
  IsList none = Unit
  IsList (some (selector, list)) = fetched_series series selector ≡ ok list

module _ {S : Type 0} (series : (selector : String) → Go (List (GoMap String))) where
  -- An error of one of the namers' selectors.
  abbrev pub Fails : List (MetricNamer S) → Error → Type 0
  Fails namers e = Any (λ n. fetched_series series n.selector ≡ err e) namers

  abbrev pub IsErr : List (MetricNamer S) → Option Error → Type 0
  IsErr namers none = Unit
  IsErr namers (some e) = Fails namers e

  -- The selector was started already, or its series are among those sent.
  abbrev pub IsCovered : List String → SelectorSeries → MetricNamer S → Type 0
  IsCovered selectors lists n =
      (has n.selector selectors ≡ true) ⊎ (1 ≤ count (is_for n.selector) lists)

  pub record Sends (selectors : List String) (namers : List (MetricNamer S)) (errs : Errs)
      (lists : SelectorSeries) : Type 0 where
    pub errors : All (IsErr namers) errs
    pub series_lists : All (IsList series) lists
    pub one_each : length errs ≡ length namers
    pub list_each : count is_nil errs ≡ length lists
    pub covers : count is_nil errs ≡ length errs → All (IsCovered selectors lists) namers

  abbrev pub Launched : List String → List (MetricNamer S) → Go (Errs × SelectorSeries) → Type 0
  Launched selectors namers (ok (errs, lists)) = Sends selectors namers errs lists
  Launched selectors namers (err e) = ⊥
  Launched selectors namers panic = Any (λ n. fetched_series series n.selector ≡ panic) namers

  further :
      (n : MetricNamer S) (namers : List (MetricNamer S)) (errs : Errs)
      → All (IsErr namers) errs
      → All (IsErr (n ∷ namers)) errs
  further n namers [] h = tt
  further n namers (none ∷ errs) h = (tt, further n namers errs h.1)
  further n namers (some e ∷ errs) h = (inr h.0, further n namers errs h.1)

  -- A namer whose selector was started already.
  again_lem :
      (selectors : List String) (n : MetricNamer S) (namers : List (MetricNamer S))
      → has n.selector selectors ≡ true
      → (r : Go (Errs × SelectorSeries)) → Launched selectors namers r
      → Launched selectors (n ∷ namers) (do (errs, lists) ← r; ok (none ∷ errs, none ∷ lists))
  again_lem selectors n namers h (ok (errs, lists)) s = record {
    errors = (tt, further n namers errs s.errors);
    series_lists = (tt, s.series_lists);
    one_each = omega (arith, s.one_each);
    list_each = omega (arith, s.list_each);
    covers = λ e. (inl h, grow namers (s.covers (omega arith)));
  }
    where
      grow :
          (ms : List (MetricNamer S))
          → All (IsCovered selectors lists) ms
          → All (IsCovered selectors (none ∷ lists)) ms
      grow [] a = tt
      grow (m ∷ ms) (a, rest) = (ground (arith, a), grow ms rest)
  again_lem selectors n namers h (err e) s = s
  again_lem selectors n namers h panic s = inr s

  cover_lem :
      (selectors : List String) (lists : SelectorSeries) (list : List PromSeries)
      → (n m : MetricNamer S) → IsCovered (n.selector ∷ selectors) lists m
      → IsCovered selectors (some (n.selector, list) ∷ lists) m
  unfolding has
  cover_lem selectors lists list n m a =
      ground (arith, str_iff m.selector n.selector, str_iff n.selector m.selector, a)

  first_lem :
      (selectors : List String) (n : MetricNamer S) (namers : List (MetricNamer S))
      → (f : Go (List PromSeries)) → fetched_series series n.selector ≡ f
      → (r : Go (Errs × SelectorSeries)) → Launched (n.selector ∷ selectors) namers r
      → Launched selectors (n ∷ namers) (sent_result n.selector f r)
  first_lem selectors n namers (ok list) e (ok (errs, lists)) s = record {
    errors = (tt, further n namers errs s.errors);
    series_lists = (e, s.series_lists);
    one_each = omega (arith, s.one_each);
    list_each = omega (arith, s.list_each);
    covers =
        λ c. (inr (ground (arith, str_iff_self n.selector)), grow namers (s.covers (omega arith)));
  }
    where
      grow :
          (ms : List (MetricNamer S))
          → All (IsCovered (n.selector ∷ selectors) lists) ms
          → All (IsCovered selectors (some (n.selector, list) ∷ lists)) ms
      grow [] a = tt
      grow (m ∷ ms) (a, rest) = (cover_lem selectors lists list n m a, grow ms rest)
  first_lem selectors n namers (ok list) e (err x) s = s
  first_lem selectors n namers (ok list) e panic s = inr s
  first_lem selectors n namers (err x) e (ok (errs, lists)) s = record {
    errors = (inl e, further n namers errs s.errors);
    series_lists = s.series_lists;
    one_each = omega (arith, s.one_each);
    list_each = omega (arith, s.list_each);
    covers = λ c. absurd (omega (arith, nils_bound errs));
  }
  first_lem selectors n namers (err x) e (err y) s = s
  first_lem selectors n namers (err x) e panic s = inr s
  first_lem selectors n namers panic e r s = inl e

  pub launch-Launched :
      (selectors : List String) (namers : List (MetricNamer S))
      → Launched selectors namers (launch series selectors namers)
  unfolding launch
  launch-Launched selectors [] = record {
    errors = tt;
    series_lists = tt;
    one_each = refl;
    list_each = refl;
    covers = λ e. tt;
  }
  launch-Launched selectors (n ∷ namers) = elim (Bool-cases (has n.selector selectors)) [
    | inl e ↦ rw e (again_lem selectors n namers e _ (launch-Launched selectors namers))
    | inr e ↦
        rw e
          (first_lem selectors n namers _ refl _ (launch-Launched (n.selector ∷ selectors) namers))
  ]
