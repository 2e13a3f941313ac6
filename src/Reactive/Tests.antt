-- ===== src/Reactive/Tests.antt =====
-- The theorems on the reactive generator at concrete metrics.
use kapacity.Common.{
  String, none, some, [], ◌∷◌, if◌then◌else◌, ◌==◌, string_eq, Go, ok, err, not_found,
}
use kapacity.Common.Int.{ℤ, pos}
use kapacity.Api.Metrics.{MetricSpec, resource_source}
use kapacity.Reactive.Generator.{compute_replicas}
use kapacity.Reactive.Justified.{Justified, compute_replicas-Justified}

abbrev resource : String → MetricSpec
resource name = record {
  source = resource_source name (record {
    type = "Utilization";
    value = none;
    average_value = none;
    average_utilization = some (pos 50);
  });
  name = "";
  operator = "";
}

-- The memory of the pods cannot be read.
abbrev propose : MetricSpec → Go ℤ
propose m = elim m.source [
  | resource_source name target ↦ if name == "cpu" then ok (pos 7) else err not_found
  | _ ↦ err not_found
]

compute_replicas-Justified_example :
    Justified propose
      (pos 5)
      (resource "cpu" ∷ resource "memory" ∷ [])
      (compute_replicas propose (pos 5) (resource "cpu" ∷ resource "memory" ∷ []))
compute_replicas-Justified_example =
    compute_replicas-Justified propose (pos 5) (resource "cpu" ∷ resource "memory" ∷ [])
