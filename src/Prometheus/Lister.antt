-- ===== src/Prometheus/Lister.antt =====
-- listAllMetrics and the updates of the registries in pkg/metric/provider/prometheus/runnable.go. The
-- series of a selector are a parameter, and so is the order in which what the goroutines send arrives
-- on each of the two channels.
pub mod Launched
pub mod Received
pub mod Listed
use mathlib.Core.List.{Permᴰ}
use kapacity.Common.{
  String, List, [], ◌∷◌, map, Option, none, some, if◌then◌else◌, Go, ok, err, panic, Error, errorf,
  wrapf, ◌>>=◌, wrap_err, string_eq,
}
use kapacity.Common.Dict.{GoMap, find, put, lookup, remove}
use kapacity.Common.Sets.{has}
use kapacity.Prometheus.Naming.{PromSeries, MetricNamer}

abbrev pub metric_name_label : String
metric_name_label = "__name__"

abbrev with_name : Option String → GoMap String → PromSeries
with_name none labels = record { name = ""; labels = labels }
with_name (some name) labels = record { name = name; labels = remove metric_name_label labels }

unfoldable pub convert_label_set_to_series : GoMap String → PromSeries
convert_label_set_to_series labels = with_name (lookup metric_name_label labels) labels

-- What is sent: an error or nil, and the series of a selector or nothing.
abbrev pub Errs : Type 0
Errs = List (Option Error)

abbrev pub SelectorSeries : Type 0
SelectorSeries = List (Option (String × List PromSeries))

abbrev pub SeriesCache : Type 0
SeriesCache = List (String × List PromSeries)

-- The order of arrival on each channel.
pub record Arrival : Type 0 where
  pub errs_order : Errs → Errs
  pub errs_perm : (xs : Errs) → Permᴰ xs (errs_order xs)
  pub series_order : SelectorSeries → SelectorSeries
  pub series_perm : (xs : SelectorSeries) → Permᴰ xs (series_order xs)

module _ (series : (selector : String) → Go (List (GoMap String))) where
  -- What a goroutine makes of its selector.
  unfoldable pub fetched_series : (selector : String) → Go (List PromSeries)
  fetched_series selector = do
    label_sets ← wrap_err "unable to fetch metrics for query %q" (selector ∷ []) (series selector)
    ok (map convert_label_set_to_series label_sets)

-- An error is sent alone. A panic of a goroutine ends the program.
abbrev pub sent_result :
    String → Go (List PromSeries) → Go (Errs × SelectorSeries) → Go (Errs × SelectorSeries)
sent_result selector (ok list) rest = do
  (errs, lists) ← rest
  ok (none ∷ errs, some (selector, list) ∷ lists)
sent_result selector (err e) rest = do (errs, lists) ← rest; ok (some e ∷ errs, lists)
sent_result selector panic rest = panic

module _ {S : Type 0} (series : (selector : String) → Go (List (GoMap String))) where
  -- The loop that starts the goroutines, one for each selector.
  unfoldable pub launch :
      (selectors : List String) → List (MetricNamer S) → Go (Errs × SelectorSeries)
  unfolding fetched_series
  launch selectors [] = ok ([], [])
  launch selectors (namer ∷ namers) =
      if has namer.selector selectors
      then (do (errs, lists) ← launch selectors namers; ok (none ∷ errs, none ∷ lists))
      else sent_result namer.selector (fetched_series series namer.selector)
          (launch (namer.selector ∷ selectors) namers)

abbrev pub keep : Option (String × List PromSeries) → SeriesCache → SeriesCache
keep none cache = cache
keep (some (selector, list)) cache = put selector list cache

module _ {S : Type 0} where
  -- The loop that receives, once for each namer. Without anything left to receive it blocks forever.
  unfoldable pub receive :
      List (MetricNamer S) → Errs → SelectorSeries → SeriesCache → Option (Go SeriesCache)
  receive [] errs lists cache = some (ok cache)
  receive (namer ∷ namers) (some e ∷ errs) lists cache =
      some (err (wrapf "unable to update list of all metrics" [] e))
  receive (namer ∷ namers) (none ∷ errs) (list ∷ lists) cache =
      receive namers errs lists (keep list cache)
  receive (namer ∷ namers) _ _ cache = none

  abbrev pub slice_and :
      MetricNamer S
      → Option (List PromSeries)
      → Go (List (List PromSeries))
      → Go (List (List PromSeries))
  slice_and namer none rest = err (
      errorf "unable to update list of all metrics: no metrics retrieved for query %q"
        (namer.selector ∷ []))
  slice_and namer (some list) rest = do slices ← rest; ok (namer.filter_series list ∷ slices)

  unfoldable pub slices_of : List (MetricNamer S) → SeriesCache → Go (List (List PromSeries))
  slices_of [] cache = ok []
  slices_of (namer ∷ namers) cache =
      slice_and namer (find namer.selector cache) (slices_of namers cache)

  abbrev pub after_receive :
      List (MetricNamer S) → Option (Go SeriesCache) → Option (Go (List (List PromSeries)))
  after_receive namers none = none
  after_receive namers (some received) = some (received >>= slices_of namers)

  abbrev pub after_launch :
      Arrival
      → List (MetricNamer S)
      → Go (Errs × SelectorSeries)
      → Option (Go (List (List PromSeries)))
  after_launch arrival namers (ok (errs, lists)) =
      after_receive namers
        (receive namers (arrival.errs_order errs) (arrival.series_order lists) [])
  after_launch arrival namers (err e) = some (err e)
  after_launch arrival namers panic = some panic

  -- No result stands for a call that blocks forever.
  unfoldable pub list_all_metrics :
      (series : (selector : String) → Go (List (GoMap String)))
      → Arrival
      → List (MetricNamer S)
      → Option (Go (List (List PromSeries)))
  unfolding launch receive slices_of
  list_all_metrics series arrival [] = some (ok [])
  list_all_metrics series arrival (namer ∷ namers) =
      after_launch arrival (namer ∷ namers) (launch series [] (namer ∷ namers))
