-- ===== src/Profile/Tests.antt =====
-- The theorems on the ReplicaProfile controller and on the workloads at concrete inputs.
use kapacity.Common.{
  true, false, not, ◌++◌, select, Error, ℕ, String, List, [], ◌∷◌, Option, none, some, Go, ok, err,
  panic, not_found, if◌then◌else◌, string_eq, ◌==◌, ◌≡◌, ◌⊎◌,
}
use kapacity.Common.Int.{pos, eqb_ℤ}
use kapacity.Pod.Data.{Pod}
use kapacity.Api.ReplicaProfile.{ReplicaProfileSpec, up, both, workload_default, readiness_gate}
use kapacity.Profile.Desired.{is_online_replicas_ensured, get_desired_online_replicas}
use kapacity.Profile.Desired.Laws.{Allows, ensured-desired, desired-Allows}
use kapacity.Workload.{replica_set_sort}
use kapacity.Workload.Ranks.{replica_set_sort-panic}
use kapacity.Scale.{Scale, ScaleClient, GroupResource, scale_for_resource_mappings}
use kapacity.Scale.Laws.{IsFirst, scale_for_resource_mappings-IsFirst}
use kapacity.Common.Range.{in_order}
use kapacity.Common.Sets.{has}
use kapacity.Common.Prog.{Safe}
use kapacity.Util.Finalizer.{Finalizers}
use kapacity.Util.Selector.{Selector}
use kapacity.Api.Meta.{NamespacedName}
use kapacity.Workload.{replica_set, deployment, stateful_set}
use kapacity.Profile.Traffic.{UpdateCondition}
use kapacity.Profile.Change.{Workloads}
use kapacity.Profile.Loop.{reconcile}
use kapacity.Profile.Loop.Careful.{care}
use kapacity.Profile.Loop.Measured.{reconcile-IsCareful}
use kapacity.Profile.Loop.Paused.{resting, reconcile-OnlyReports}

-- Five replicas are desired while seven run, and the number may only grow.
ensured-desired_example :
    is_online_replicas_ensured up (pos 5) (pos 7)
    ≡ eqb_ℤ (get_desired_online_replicas up (pos 5) (pos 7)) (pos 7)
ensured-desired_example = ensured-desired up (pos 5) (pos 7)

desired-Allows_example :
    Allows up (pos 7) (get_desired_online_replicas up (pos 5) (pos 7))
    × ((get_desired_online_replicas up (pos 5) (pos 7) ≡ pos 5)
        ⊎ (get_desired_online_replicas up (pos 5) (pos 7) ≡ pos 7))
desired-Allows_example = desired-Allows up (pos 5) (pos 7)

abbrev web_pod : Pod
web_pod = record {
  namespace = "default";
  name = "web-0";
  labels = none;
  deletion_timestamp = none;
  phase = "Running";
  node_name = "node-a";
  readiness_gates = [];
  conditions = [];
}

abbrev keep_order : List (Option Pod) → List ℕ → List (Option Pod)
keep_order pods ranks = pods

replica_set_sort-panic_example :
    replica_set_sort (ok (web_pod ∷ [])) keep_order (some web_pod ∷ []) ≡ panic
replica_set_sort-panic_example = replica_set_sort-panic (web_pod ∷ []) keep_order (some web_pod) []

abbrev resource_of : String → GroupResource
resource_of r = record { group = "apps"; resource = r }

abbrev reply_for : GroupResource → Go Scale
reply_for m =
    if m.resource == "scales"
    then ok (record { replicas = pos 3; status_replicas = pos 3; selector = "app=web" })
    else err not_found

-- A client that has a scale for one resource.
abbrev client : ScaleClient
client = record {
  parse_group = λ v. ok "apps";
  rest_mappings = λ g k. ok [];
  get = λ ns m n. reply_for m;
}

scale_for_resource_mappings-IsFirst_example :
    IsFirst client "default" "web" (resource_of "deployments" ∷ resource_of "scales" ∷ []) (
      scale_for_resource_mappings client "default" "web"
        (resource_of "deployments" ∷ resource_of "scales" ∷ []))
scale_for_resource_mappings-IsFirst_example =
    scale_for_resource_mappings-IsFirst client "default" "web"
      (resource_of "deployments" ∷ resource_of "scales" ∷ [])

abbrev finalizer : String
finalizer = "kapacitystack.io/finalizer"

-- The documented behaviour of controllerutil.
abbrev finalizers : Finalizers
finalizers = record {
  contains = λ m. has finalizer m.finalizers;
  add = λ m. record m { finalizers = m.finalizers ++ (finalizer ∷ []) };
  remove = λ m. record m { finalizers = select (λ f. not (f == finalizer)) m.finalizers };
}

abbrev select_all : String → Go Selector
select_all s = ok (record { matches = λ labels. true })

abbrev error_text : Error → String
error_text e = "error"

-- Workloads whose pods stay in the order given.
abbrev workloads : Workloads
workloads = record {
  group_of = λ v. "apps";
  replica_set = replica_set (ok (web_pod ∷ [])) keep_order;
  deployment = deployment (ok (web_pod ∷ [])) keep_order;
  stateful_set = stateful_set (λ name. pos 0) (λ above pods. ok pods);
}

abbrev append_condition : UpdateCondition
append_condition cs c = (cs ++ (c ∷ []), true)

abbrev request : NamespacedName
request = record { namespace = "default"; name = "web" }

reconcile-OnlyReports_example :
    Safe resting
      (λ r. Unit)
      (reconcile finalizers select_all in_order error_text workloads append_condition request)
reconcile-OnlyReports_example =
    reconcile-OnlyReports finalizers select_all in_order error_text workloads append_condition
      request

abbrev web_spec : ReplicaProfileSpec
web_spec = record {
  scale_target_ref = record { kind = "Deployment"; name = "web"; api_version = "apps/v1" };
  online_replicas = pos 2;
  cutoff_replicas = pos 1;
  standby_replicas = pos 0;
  paused = false;
  allowed_scaling_direction = both;
  behavior = record { pod_sorter = workload_default; pod_traffic_controller = readiness_gate };
}

abbrev web_scale : Scale
web_scale = record { replicas = pos 1; status_replicas = pos 1; selector = "app=web" }

reconcile-IsCareful_example :
    Safe
      (care web_spec web_scale (web_pod ∷ []))
      (λ r. Unit)
      (reconcile finalizers select_all in_order error_text workloads append_condition request)
reconcile-IsCareful_example =
    reconcile-IsCareful web_spec web_scale (web_pod ∷ []) finalizers select_all in_order error_text
      workloads append_condition request
