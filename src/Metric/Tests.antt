-- ===== src/Metric/Tests.antt =====
-- The theorems on metrics at concrete samples. The floats are numbers of thousandths.
use kapacity.Common.{
  select, true, false, String, List, [], ◌∷◌, Option, none, some, Go, ok, err, not_found, ◌≡◌,
}
use kapacity.Common.Int.{ℤ, pos, ltb_ℤ, ◌*ℤ◌}
use kapacity.Common.Time.{Time}
use kapacity.Common.Gives.{Gives}
use kapacity.Common.Dict.{find}
use kapacity.Util.Selector.{Selector}
use kapacity.Api.Metrics.{LabelSelector}
use kapacity.Metric.Data.{Query, Sample}
use kapacity.Metric.Service.{QueryMessage, QueryType, pod_resource_body, query_latest}
use kapacity.Metric.Answer.{Answers, query_latest-Answers}
use kapacity.Metric.Client.{
  Floats, build_resource_pod_metrics_info_from_samples, build_pod_metrics_info_from_samples,
}
use mathlib.Core.Option
use kapacity.Metric.Latest.{
  resource_reading, raw_reading, tells_resource, tells_raw, last_of, build_pod_metrics_info-latest,
}

abbrev sample : String → ℤ → Option ℤ → Sample ℤ
sample pod value window = record {
  point = record { timestamp = pos 5; value = value };
  labels = some (("pod", pod) ∷ []);
  window = window;
}

abbrev usage : List (Sample ℤ)
usage = sample "web-1" (pos 250) (some (pos 30)) ∷ sample "web-1" (pos 300) none ∷ []

abbrev parse : String → Go Selector
parse text = ok (record { matches = λ labels. true })

abbrev parse_to_label_selector : String → Go LabelSelector
parse_to_label_selector text = err not_found

abbrev provider : Query → Go (List (Sample ℤ))
provider q = ok usage

abbrev request : QueryMessage
request = record {
  type = QueryType.pod_resource;
  body = pod_resource_body (record {
    namespace = "default";
    name = "";
    selector = "app=web";
    resource_name = "cpu";
    container_name = "";
  });
}

query_latest-Answers_example :
    Gives
      (Answers parse parse_to_label_selector provider request)
      (query_latest parse parse_to_label_selector provider request)
query_latest-Answers_example = query_latest-Answers parse parse_to_label_selector provider request

abbrev floats : Floats ℤ
floats = record { is_nan = λ v. false; is_negative = λ v. ltb_ℤ v (pos 0); milli = λ v. v }

abbrev time_of : ℤ → Time
time_of t = t *ℤ pos 1_000_000

build_pod_metrics_info-latest_example :
    (find "web-1" (build_resource_pod_metrics_info_from_samples floats time_of usage)
      ≡ Option.map
          (resource_reading floats time_of "web-1")
          (last_of (select (tells_resource floats time_of "web-1") usage)))
    × (find "web-1" (build_pod_metrics_info_from_samples floats time_of usage)
        ≡ Option.map
            (raw_reading floats time_of "web-1")
            (last_of (select (tells_raw floats time_of "web-1") usage)))
build_pod_metrics_info-latest_example = build_pod_metrics_info-latest floats time_of "web-1" usage
