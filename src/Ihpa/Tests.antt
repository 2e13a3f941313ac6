-- ===== src/Ihpa/Tests.antt =====
-- The theorems on the IHPA controller at concrete objects.
use kapacity.Common.{
  Option, false, not, String, List, [], ◌∷◌, ◌++◌, none, some, select, ok, Error, ◌≡◌, ◌≤◌, refl,
  arith, string_eq, ◌==◌,
}
use kapacity.Common.Int.{ℤ, pos}
use kapacity.Common.Range.{in_order}
use kapacity.Common.Sets.{has}
use kapacity.Common.Prog.{Safe}
use kapacity.Common.Dict.{find}
use kapacity.Util.Finalizer.{Finalizers}
use kapacity.Pod.Data.{cutoff}
use kapacity.Api.Meta.{NamespacedName}
use kapacity.Api.Ihpa.{
  HorizontalPortraitProvider, static_config, Ihpa, ScalingBehavior, GrayStrategy,
  HorizontalPortraitValue, ScaleMode,
}
use kapacity.Ihpa.Calls.{Providers}
use kapacity.Ihpa.Gray.{gray_replicas, generate_ihpa_replica_data, ReplicaCap}
use kapacity.Ihpa.Gray.Steps.{changed, step_at, gap, gray_replicas_lem}
use kapacity.Ihpa.Gray.Bounds.{plain, IsCapped, generate_ihpa_replica_data-IsCapped}
use kapacity.Ihpa.Portrait.{fetch_values}
use kapacity.Ihpa.Portrait.Best.{offered}
use kapacity.Ihpa.Portrait.Choice.{providing, IsChoice, fetch_values-IsChoice}
use kapacity.Ihpa.Loop.{reconcile}
use kapacity.Ihpa.Loop.Bounding.{bounding}
use kapacity.Ihpa.Loop.Bounded.{reconcile-Bounded}
use kapacity.Ihpa.Loop.Paused.{pausing, reconcile-Pauses}

abbrev request : NamespacedName
request = record { namespace = "default"; name = "web" }

-- The documented behaviour of controllerutil.
abbrev finalizers : Finalizers
finalizers = record {
  contains = λ m. has "kapacitystack.io/finalizer" m.finalizers;
  add = λ m. record m { finalizers = m.finalizers ++ ("kapacitystack.io/finalizer" ∷ []) };
  remove = λ m. record m {
    finalizers = select (λ f. not (f == "kapacitystack.io/finalizer")) m.finalizers;
  };
}

abbrev split : String → List String
split s = "Static" ∷ "Static" ∷ []

abbrev error_text : Error → String
error_text e = "error"

abbrev providers : Providers
providers = ("Static", λ ihpa cfg. "Static") ∷ []

abbrev slowly : GrayStrategy
slowly = record {
  gray_state = cutoff;
  change_interval_seconds = pos 60;
  change_percent = pos 20;
  observation_seconds = pos 300;
}

-- A fifth of a scale down from 10 to 5 has moved: one pod is cut off.
gray_replicas_lem_example :
    (gray_replicas slowly (pos 20) (pos 10) (pos 5) ≡ changed slowly 10 5 (step_at (gap 10 5) 20))
    × (1 ≤ step_at (gap 10 5) 20)
    × (step_at (gap 10 5) 20 ≤ gap 10 5)
gray_replicas_lem_example =
    gray_replicas_lem slowly 20 10 5 (ground arith) (ground arith) (ground arith) (ground arith)
      (ground arith)

abbrev at_once : ScalingBehavior
at_once = record { disabled = false; gray_strategy = none }

abbrev twelve : HorizontalPortraitValue
twelve = record { provider = "Static"; replicas = pos 12; expire_time = none }

-- The portrait asks for 12 replicas, of at most 8.
abbrev web : Ihpa
web = record {
  meta = record {
    namespace = "default";
    name = "web";
    uid = "1";
    generation = pos 1;
    deletion_timestamp = none;
    finalizers = [];
  };
  spec = record {
    scale_target_ref = record { api_version = "apps/v1"; kind = "Deployment"; name = "web" };
    paused = false;
    min_replicas = pos 2;
    max_replicas = pos 8;
    scale_mode = ScaleMode.auto;
    portrait_providers = [];
    behavior = record { scale_up = at_once; scale_down = at_once; replica_profile = none };
  };
  status = record {
    previous_portrait_value = none;
    current_portrait_value = some twelve;
    gray = none;
    conditions = [];
  };
}

generate_ihpa_replica_data-IsCapped_example :
    (o : ℤ × ReplicaCap) × (generate_ihpa_replica_data (pos 7) web ≡ ok (plain web twelve o))
    × IsCapped (pos 2) (pos 8) (pos 12) o
generate_ihpa_replica_data-IsCapped_example =
    generate_ihpa_replica_data-IsCapped (pos 7) web twelve refl refl refl (ground arith)

reconcile-Bounded_example :
    Safe
      (bounding web.spec)
      (λ r. Unit)
      (reconcile finalizers split in_order error_text providers request)
reconcile-Bounded_example =
    reconcile-Bounded web.spec finalizers split in_order error_text providers refl refl
      (ground arith) request refl

reconcile-Pauses_example :
    Safe pausing (λ r. Unit) (reconcile finalizers split in_order error_text providers request)
reconcile-Pauses_example = reconcile-Pauses finalizers split in_order error_text providers request

abbrev static_provider : ℤ → ℤ → HorizontalPortraitProvider
static_provider priority replicas = record {
  type = "Static";
  priority = priority;
  config = static_config replicas;
}

abbrev gives : HorizontalPortraitProvider → Option HorizontalPortraitValue
gives cfg = some twelve

fetch_values-IsChoice_example :
    Safe
      (providing gives)
      (IsChoice (pos 7) (
        offered gives
          (static_provider (pos 1) (pos 12) ∷ static_provider (pos 2) (pos 12) ∷ [])
          []))
      (fetch_values providers web
        (pos 7)
        (static_provider (pos 1) (pos 12) ∷ static_provider (pos 2) (pos 12) ∷ [])
        none)
unfolding find
fetch_values-IsChoice_example =
    fetch_values-IsChoice gives (pos 7) providers web
      (static_provider (pos 1) (pos 12) ∷ static_provider (pos 2) (pos 12) ∷ [])
      ((λ ihpa cfg. "Static", refl), ((λ ihpa cfg. "Static", refl), tt))
