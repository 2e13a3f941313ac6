-- ===== src/Prometheus/Naming.antt =====
-- What pkg/metric/provider/prometheus uses of the Prometheus adapter and of the selectors of
-- Kubernetes: naming.MetricNamer, naming.MetricsQuery, labels.Selector and custom metric infos. Their
-- operations are fields, which stand for code outside of the repository.
use kapacity.Common.{
  Bool, ◌&&◌, true, false, not, String, List, Option, Go, ◌≡◌, ◌↔◌, ◌==◌, string_eq, Eq, arith,
}
use kapacity.Common.Dict.{GoMap, str_iff}
use kapacity.Api.Metrics.{LabelSelector}
use kapacity.Metric.Data.{GroupKind}
use kapacity.Scale.{GroupResource}

pub GroupResource-iff :
    (a b : GroupResource) → ((a.group == b.group && a.resource == b.resource) ≡ true) ↔ (a ≡ b)
GroupResource-iff a b = ground (arith, str_iff a.group b.group, str_iff a.resource b.resource)

instance abbrev pub group_resource_eq : Eq GroupResource
group_resource_eq = record {
  beq = λ a b. a.group == b.group && a.resource == b.resource;
  agrees = GroupResource-iff;
}

pub GroupKind-iff : (a b : GroupKind) → ((a.group == b.group && a.kind == b.kind) ≡ true) ↔ (a ≡ b)
GroupKind-iff a b = ground (arith, str_iff a.group b.group, str_iff a.kind b.kind)

instance abbrev pub group_kind_eq : Eq GroupKind
group_kind_eq = record {
  beq = λ a b. a.group == b.group && a.kind == b.kind;
  agrees = GroupKind-iff;
}

-- cmaprovider.CustomMetricInfo
pub record CustomMetricInfo : Type 0 where
  pub group_resource : GroupResource
  pub namespaced : Bool
  pub metric : String

abbrev pub same_bool : Bool → Bool → Bool
same_bool true b = b
same_bool false b = not b

abbrev pub same_info : CustomMetricInfo → CustomMetricInfo → Bool
same_info a b =
    a.group_resource == b.group_resource
    && same_bool a.namespaced b.namespaced
    && a.metric == b.metric

pub same_bool_iff : (a b : Bool) → (same_bool a b ≡ true) ↔ (a ≡ b)
same_bool_iff a b = ground arith

pub CustomMetricInfo-iff : (a b : CustomMetricInfo) → (same_info a b ≡ true) ↔ (a ≡ b)
CustomMetricInfo-iff a b = ground (
  arith,
  GroupResource-iff a.group_resource b.group_resource,
  same_bool_iff a.namespaced b.namespaced,
  str_iff a.metric b.metric,
)

instance abbrev pub info_eq : Eq CustomMetricInfo
info_eq = record { beq = same_info; agrees = CustomMetricInfo-iff }

-- promadapterclient.Series
pub record PromSeries : Type 0 where
  pub name : String
  pub labels : GoMap String

-- What is done with selectors of a type S.
pub record Selectors (S : Type 0) : Type 0 where
  pub everything : S
  pub from_set : (label value : String) → S
  pub add_in : S → (label : String) → (values : List String) → S
  pub from_label_selector : Option LabelSelector → Go S

-- naming.MetricNamer
pub record MetricNamer (S : Type 0) : Type 0 where
  pub selector : String
  pub filter_series : List PromSeries → List PromSeries
  pub resources_for_series : PromSeries → List GroupResource × Bool
  pub metric_name_for_series : PromSeries → Go String
  pub query_for_series :
      (series : String)
      → GroupResource
      → (namespace : String) → S
      → (names : List String) → Go String
  pub query_for_external_series : (series namespace : String) → S → Go String

-- naming.MetricsQuery
pub record MetricsQuery (S : Type 0) : Type 0 where
  pub build : GroupResource → (namespace : String) → S → (names : List String) → Go String
  pub build_external : (namespace namespace_label : String) → S → Go String
