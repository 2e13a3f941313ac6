-- ===== src/Hp/Tests.antt =====
-- The theorems on the HorizontalPortrait controller at concrete states.
use kapacity.Common.{not, String, some, ◌∷◌, select, Error, ap, sym, string_eq, ◌==◌}
use kapacity.Common.Sets.{has}
use kapacity.Common.World.{Keeps}
use kapacity.Util.Finalizer.{Finalizers}
use kapacity.Api.Meta.{NamespacedName}
use kapacity.Hp.Calls.{Registry}
use kapacity.Hp.Tracked.{Jobs, Tracked, jobs_world, Kept}
use kapacity.Hp.Loop.{reconcile}
use kapacity.Hp.Loop.Jobs.{reconcile-Tracked}

abbrev request : NamespacedName
request = record { namespace = "default"; name = "web-predictive" }

-- The documented behaviour of controllerutil.
abbrev finalizers : Finalizers
finalizers = record {
  contains = λ m. has "kapacitystack.io/finalizer" m.finalizers;
  add = λ m. record m { finalizers = "kapacitystack.io/finalizer" ∷ m.finalizers };
  remove = λ m. record m {
    finalizers = select (λ f. not (f == "kapacitystack.io/finalizer")) m.finalizers;
  };
}

abbrev registry : Registry
registry = record {
  has_generator = λ type. type == "Reactive";
  has_job_controller = λ type. type == "CronJob";
  has_result_fetcher = λ type. type == "ConfigMap";
}

abbrev error_text : Error → String
error_text e = "error"

-- A CronJob computes the portrait, and was seen.
abbrev one_job : Jobs
one_job = record { seen = some "CronJob"; runs = λ u. u == "CronJob" }

one_job-Tracked : Tracked one_job
one_job-Tracked u runs = ap some (sym ((string_eq.agrees u "CronJob").0 runs))

reconcile-Tracked_example :
    Keeps
      (jobs_world finalizers request)
      Kept
      one_job
      (reconcile finalizers registry error_text request)
reconcile-Tracked_example =
    reconcile-Tracked finalizers registry error_text request one_job one_job-Tracked
