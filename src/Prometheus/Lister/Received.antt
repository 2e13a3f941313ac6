-- ===== src/Prometheus/Lister/Received.antt =====
-- What the receiving loop of listAllMetrics ends with.
use mathlib.Core.Option.{some-injective}
use kapacity.Common.{
  ◌≤◌, Bool, true, false, String, List, [], ◌∷◌, Option, none, some, All, length, Go, ok, err,
  panic, Error, wrapf, if◌then◌else◌, ◌==◌, string_eq, ◌≡◌, refl, sym, ◌∙◌, ◌⊎◌, inl, inr,
  Bool-cases, arith,
}
use kapacity.Common.Dict.{GoMap, find, find-put, str_iff}
use kapacity.Common.Perms.{count}
use kapacity.Prometheus.Naming.{PromSeries, MetricNamer}
use kapacity.Prometheus.Lister.{Errs, SelectorSeries, SeriesCache, fetched_series, keep, receive}
use kapacity.Prometheus.Lister.Launched.{is_nil, is_for, IsErr, IsList, Fails}

abbrev pub found : Option (List PromSeries) → Bool
found none = false
found (some list) = true

-- What the cache holds is what was fetched.
abbrev pub IsCache :
    (series : (selector : String) → Go (List (GoMap String))) → SeriesCache → Type 0
IsCache series cache =
    (k : String) (list : List PromSeries)
    → find k cache ≡ some list
    → fetched_series series k ≡ ok list

module _ {S : Type 0} (series : (selector : String) → Go (List (GoMap String)))
    (all : List (MetricNamer S)) where
  -- Either all errors were nil, and the cache holds what it held and what was received, or one of the
  -- errors is returned. The loop does not block.
  abbrev pub Received : Errs → SelectorSeries → SeriesCache → Option (Go SeriesCache) → Type 0
  Received errs lists cache none = ⊥
  Received errs lists cache (some (ok c)) =
      IsCache series c
      × (count is_nil errs ≡ length errs)
      × ((k : String)
          → (found (find k cache) ≡ true) ⊎ (1 ≤ count (is_for k) lists)
          → found (find k c) ≡ true)
  Received errs lists cache (some (err e)) =
      (e' : Error) × Fails series all e' × (e ≡ wrapf "unable to update list of all metrics" [] e')
  Received errs lists cache (some panic) = ⊥

  picked :
      (s k : String) (list l : List PromSeries) (o : Option (List PromSeries)) (b : Bool)
      → (s == k) ≡ b
      → fetched_series series s ≡ ok list
      → (o ≡ some l → fetched_series series k ≡ ok l)
      → (if b then some list else o) ≡ some l
      → fetched_series series k ≡ ok l
  picked s k list l o true q h c e =
      let same = (str_iff s k).0 q in let equal = some-injective _ _ e in cc
  picked s k list l o false q h c e = c e

  keep-IsCache :
      (o : Option (String × List PromSeries)) (cache : SeriesCache)
      → IsList series o
      → IsCache series cache
      → IsCache series (keep o cache)
  keep-IsCache none cache h c = c
  keep-IsCache (some (s, list)) cache h c = λ k l e.
      picked s k list l (find k cache) (s == k) refl h (c k l) (sym (find-put s k list cache) ∙ e)

  found_lem :
      (b : Bool) (list : List PromSeries) (o : Option (List PromSeries))
      → (found o ≡ true) ⊎ (b ≡ true)
      → found (if b then some list else o) ≡ true
  found_lem true list o h = refl
  found_lem false list o (inl e) = e
  found_lem false list o (inr e) = cc

  keep-found :
      (o : Option (String × List PromSeries)) (cache : SeriesCache) (k : String)
      → (found (find k cache) ≡ true) ⊎ (is_for k o ≡ true)
      → found (find k (keep o cache)) ≡ true
  keep-found none cache k (inl e) = e
  keep-found none cache k (inr e) = cc
  keep-found (some (s, list)) cache k h =
      rw (find-put s k list cache) (found_lem (s == k) list (find k cache) h)

  or_none : {P : Type 0} → P ⊎ (1 ≤ 0) → P
  or_none (inl p) = p
  or_none (inr q) = absurd (omega arith)

  pass :
      (k : String) (x : Option (String × List PromSeries)) (lists : SelectorSeries)
      → (cache : SeriesCache) → (found (find k cache) ≡ true) ⊎ (1 ≤ count (is_for k) (x ∷ lists))
      → (found (find k (keep x cache)) ≡ true) ⊎ (1 ≤ count (is_for k) lists)
  pass k x lists cache (inl e) = inl (keep-found x cache k (inl e))
  pass k x lists cache (inr q) = elim (Bool-cases (is_for k x)) [
    | inl e ↦ inl (keep-found x cache k (inr e))
    | inr e ↦ inr (ground arith)
  ]

  pub receive-Received :
      (namers : List (MetricNamer S)) (errs : Errs) (lists : SelectorSeries) (cache : SeriesCache)
      → length errs ≡ length namers
      → count is_nil errs ≡ length lists
      → All (IsErr series all) errs
      → All (IsList series) lists
      → IsCache series cache
      → Received errs lists cache (receive namers errs lists cache)
  unfolding receive
  receive-Received [] [] [] cache l n he hl c = (c, refl, λ k h. or_none h)
  receive-Received [] [] (x ∷ lists) cache l n he hl c = absurd (omega arith)
  receive-Received [] (e ∷ errs) lists cache l n he hl c = absurd (omega arith)
  receive-Received (m ∷ namers) [] lists cache l n he hl c = absurd (omega arith)
  receive-Received (m ∷ namers) (some e ∷ errs) lists cache l n he hl c = (e, he.0, refl)
  receive-Received (m ∷ namers) (none ∷ errs) [] cache l n he hl c = absurd (omega arith)
  receive-Received (m ∷ namers) (none ∷ errs) (x ∷ lists) cache l n he hl c =
      onward x (receive namers errs lists (keep x cache)) (
        receive-Received namers errs lists (keep x cache) (omega arith) (omega arith) he.1 hl.1
          (keep-IsCache x cache hl.0 c))
    where
      onward :
          (x : Option (String × List PromSeries)) (r : Option (Go SeriesCache))
          → Received errs lists (keep x cache) r
          → Received (none ∷ errs) (x ∷ lists) cache r
      onward x none h = h
      onward x (some (err e)) h = h
      onward x (some panic) h = h
      onward x (some (ok c)) (a, b, f) = (a, omega arith, λ k h. f k (pass k x lists cache h))
