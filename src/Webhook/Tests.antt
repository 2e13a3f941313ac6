-- ===== src/Webhook/Tests.antt =====
-- The theorems on the pod webhook at a concrete pod.
use kapacity.Common.{false, none, some, [], ◌∷◌, ◌≡◌}
use kapacity.Common.Int.{pos}
use kapacity.Pod.Data.{Pod}
use kapacity.Webhook.{Request, mutate}
use kapacity.Webhook.Twice.{mutate_twice}

abbrev creation : Request
creation = record { operation = "CREATE"; sub_resource = "" }

abbrev web : Pod
web = record {
  namespace = "default";
  name = "web-1";
  labels = some (("kapacitystack.io/inject-pod-readiness-gate", "true") ∷ []);
  deletion_timestamp = none;
  phase = "Pending";
  node_name = "";
  readiness_gates = [];
  conditions = [];
}

mutate_twice_example :
    mutate (pos 9) creation (mutate (pos 5) creation web).0
    ≡ ((mutate (pos 5) creation web).0, false)
mutate_twice_example = mutate_twice (pos 5) (pos 9) creation web
