-- ===== src/Prometheus/Tests.antt =====
-- The theorems on the Prometheus provider at concrete queries.
use mathlib.Core.List.{Permᴰ}
use mathlib.Core.List.Permᴰ
use kapacity.Common.{
  ℕ, ◌*◌, true, String, List, [], ◌∷◌, none, some, map, Go, ok, err, foreign, refl, ◌≡◌,
  if◌then◌else◌, ◌==◌, string_eq, arith,
}
use kapacity.Common.Int.{pos, int64}
use kapacity.Common.Time.{second}
use kapacity.Common.Dict.{GoMap, find, text_at}
use kapacity.Common.Range.{in_order}
use kapacity.Common.Sets.{has, Distinct}
use kapacity.Metric.Data.{Query, external_query}
use kapacity.Prometheus.Naming.{Selectors, MetricsQuery, MetricNamer}
use kapacity.Prometheus.Range.{Range, prom_query_range_sharding}
use kapacity.Prometheus.Range.Grid.{evaluations}
use kapacity.Prometheus.Range.Cover.{Tiles, prom_query_range_sharding-Tiles}
use kapacity.Prometheus.Range.Endless.{prom_query_range_sharding-none}
use kapacity.Prometheus.Query.{ResourceQuery, Building, build_prom_query}
use kapacity.Prometheus.Result.{val_matrix}
use kapacity.Prometheus.Provider.{PromApi, Texts, SeriesMap, values_at, query_prom}
use kapacity.Prometheus.Provider.Stored.{Stored, streams_at, points_at, texts_of}
use kapacity.Prometheus.Provider.Points.{points_under}
use kapacity.Prometheus.Provider.Whole.{query_prom-points_at}
use kapacity.Prometheus.Registry.{query_external_metric}
use kapacity.Prometheus.Lister.{Arrival, list_all_metrics}
use kapacity.Prometheus.Lister.Listed.{Listed, list_all_metrics-Listed}
use kapacity.Prometheus.Relist.{update_external_series}
use kapacity.Prometheus.Relist.Registers.{IsQuiet, Registers, update_external_series-Registers}

abbrev minute : ℕ
minute = 60 * second

abbrev days : Range
days = record { start = pos 0; end = pos (20_000 * minute); step = pos minute }

-- Twenty thousand minutes make two shards.
two_shards :
    prom_query_range_sharding 2 days.start days.end days.step
    ≡ some (
        record { start = pos 0; end = pos (11_000 * minute); step = pos minute }
        ∷ record { start = pos (11_001 * minute); end = pos (20_000 * minute); step = pos minute }
        ∷ [])
unfolding prom_query_range_sharding int64
two_shards = refl

prom_query_range_sharding-Tiles_example :
    (rs : List Range) × (prom_query_range_sharding 2 days.start days.end days.step ≡ some rs)
    × Tiles days rs
prom_query_range_sharding-Tiles_example =
    prom_query_range_sharding-Tiles 2 minute (pos 0) (pos (20_000 * minute)) (omega arith)
      (omega arith) (omega arith)

prom_query_range_sharding-none_example :
    prom_query_range_sharding 1_000 (pos 0) (pos minute) (pos 0) ≡ none
prom_query_range_sharding-none_example =
    prom_query_range_sharding-none 1_000 (pos 0) (pos minute) refl

-- Selectors as texts, and an adapter that names each series by itself.
abbrev selectors : Selectors String
selectors = record {
  everything = "";
  from_set = λ label value. value;
  add_in = λ s label values. s;
  from_label_selector = λ o. ok "";
}

abbrev no_query : MetricsQuery String
no_query = record { build = λ r n s names. ok ""; build_external = λ n l s. ok "" }

abbrev rq : ResourceQuery String
rq = record {
  container_query = no_query;
  ready_pods_only_container_query = no_query;
  container_label = "container";
}

abbrev namer : String → MetricNamer String
namer selector = record {
  selector = selector;
  filter_series = λ list. list;
  resources_for_series = λ s. ([], true);
  metric_name_for_series = λ s. ok s.name;
  query_for_series = λ series r n s names. ok series;
  query_for_external_series = λ series n s. ok series;
}

abbrev building : Building String
building = record {
  selectors = selectors;
  list_pods = λ n s. ok [];
  rest_mapping = λ k. err (foreign "no mapping");
  list_object_names = λ n s i. ok [];
  normalized = λ i. ok i;
  sprintf = λ pattern name. name;
  workload_pod_name_pattern_map = [];
  cpu_query = rq;
  mem_query = rq;
  resource_query_window = pos 0;
  object_infos = [];
  external_infos = ("qps", record { series_name = "http_qps"; namer = namer "http" }) ∷ [];
}

abbrev qps : Query
qps =
    external_query
      (record { namespace = "default"; metric = record { name = "qps"; selector = none } })

abbrev host : String → GoMap String
host name = some (("host", name) ∷ [])

-- Two hosts with a value at each instant.
abbrev hosts : Stored ℕ
hosts = record {
  label_sets = host "a" ∷ host "b" ∷ [];
  value_at = λ labels t. some (if text_at "host" labels == "a" then 1 else 2);
  stamp = λ t. t;
}

abbrev api : PromApi ℕ
api = record {
  query = λ q t. err (foreign "not asked for");
  query_range_at = λ q r. ok (record {
    type = val_matrix;
    type_text = "matrix";
    text = "";
    as_vector = none;
    as_matrix = some (streams_at hosts hosts.label_sets (evaluations r));
  });
}

abbrev texts : Texts
texts = record { label_text = λ labels. text_at "host" labels; error_text = λ e. "error" }

builds : build_prom_query building qps ≡ ok ("http_qps", none)
unfolding build_prom_query query_external_metric find
builds = refl

apart : Distinct (texts_of hosts texts hosts.label_sets)
unfolding has find
apart = (refl, (refl, tt))

query_prom-points_at_example :
    (m : SeriesMap ℕ) × (query_prom api building 2 texts in_order qps days.start days.end days.step
      ≡ some (ok (values_at (map (λ entry. entry.0) m) m)))
    × ((k : String)
        → points_under k m ≡ points_at hosts texts k hosts.label_sets (evaluations days))
query_prom-points_at_example =
    query_prom-points_at hosts api texts "http_qps" none
      (λ r f l. (_, refl, record { type_agrees = refl; matrix_agrees = refl })) building qps builds
      2 minute in_order (pos 0) (pos (20_000 * minute)) (omega arith) (omega arith) (ground arith)
      (omega arith) apart

-- The first two that are sent arrive in the other order.
abbrev swapped : {A : Type 0} → List A → List A
swapped (a ∷ b ∷ rest) = b ∷ a ∷ rest
swapped rest = rest

swapped-perm : {A : Type 0} (xs : List A) → Permᴰ xs (swapped xs)
swapped-perm [] = Permᴰ.nil
swapped-perm (a ∷ []) = Permᴰ.refl (a ∷ [])
swapped-perm (a ∷ b ∷ rest) = Permᴰ.swap refl refl

abbrev late : Arrival
late = record {
  errs_order = swapped;
  errs_perm = λ xs. swapped-perm xs;
  series_order = swapped;
  series_perm = λ xs. swapped-perm xs;
}

abbrev known_series : String → Go (List (GoMap String))
known_series selector = ok (some (("__name__", selector) ∷ ("host", "a") ∷ []) ∷ [])

-- Two namers share a selector.
abbrev namers : List (MetricNamer String)
namers = namer "http" ∷ namer "grpc" ∷ namer "http" ∷ []

list_all_metrics-Listed_example :
    Listed known_series namers (list_all_metrics known_series late namers)
list_all_metrics-Listed_example = list_all_metrics-Listed known_series late namers

quiet : (selector : String) → IsQuiet (namer selector)
quiet selector s e = cc

update_external_series-Registers_example :
    Registers known_series namers (update_external_series known_series late namers)
update_external_series-Registers_example =
    update_external_series-Registers known_series late namers
      (quiet "http", (quiet "grpc", (quiet "http", tt)))
