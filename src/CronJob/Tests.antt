-- ===== src/CronJob/Tests.antt =====
-- The theorems on the CronJob of a portrait at concrete objects.
use kapacity.Common.{
  Bool, true, false, if◌then◌else◌, subst, sym, String, none, some, [], ◌∷◌, ◌≡◌, refl, string_eq,
  ◌==◌,
}
use kapacity.Common.Int.{pos}
use kapacity.Common.World.{Keeps}
use kapacity.Common.Dict.{find}
use kapacity.Api.Algorithm.{CronJobSpec, CronJobTemplateSpec, PortraitAlgorithmJob}
use kapacity.Api.HorizontalPortrait.{HorizontalPortrait}
use kapacity.CronJob.{
  CronJob, defaulting_template_pod_spec, CronJobHorizontal, build_cron_job_namespaced_name,
}
use kapacity.CronJob.Update.{defaulted, update_job, cleanup_job}
use kapacity.CronJob.Cluster.{updating, Converged, update_job-Converged}
use kapacity.CronJob.Cleanup.{cleaning, Gone, cleanup_job-Gone}
use kapacity.CronJob.Names.{build_cron_job_namespaced_name_clash}

abbrev manager : CronJobHorizontal
manager = record {
  namespace = "kapacity-system";
  default_service_account = "";
  default_metrics_server_addr = "kapacity-grpc-service:9090";
  default_images = some (("Predictive", "algorithm:latest") ∷ []);
}

abbrev spec : CronJobSpec
spec = record {
  service_account_name = "";
  deprecated_service_account = "";
  containers = record { name = "algorithm"; image = ""; env = []; rest = "" } ∷ [];
  rest = "0 * * * *";
}

abbrev template : CronJobTemplateSpec
template = record {
  labels = some (("app", "web") ∷ ("team", "a") ∷ []);
  annotations = none;
  spec = spec;
}

abbrev job : PortraitAlgorithmJob
job = record { type = "CronJob"; cron_job = some template }

abbrev portrait : String → String → HorizontalPortrait
portrait namespace name = record {
  meta = record {
    namespace = namespace;
    name = name;
    uid = "1";
    generation = pos 1;
    deletion_timestamp = none;
    finalizers = [];
  };
  spec = record {
    scale_target_ref = record { api_version = "apps/v1"; kind = "Deployment"; name = "web" };
    portrait = record {
      portrait_type = "Predictive";
      external_generator_name = "";
      metrics = [];
      algorithm = record {
        type = "ExternalJob";
        external_job = none;
        kube_hpa = none;
        config = none;
      };
    };
  };
  status = record { portrait_data = none; conditions = [] };
}

-- An equality of specs that compares a field of theirs.
abbrev same_schedule : CronJobSpec → CronJobSpec → Bool
same_schedule x y = x.rest == y.rest

same_schedule_self : (x : CronJobSpec) → same_schedule x x ≡ true
same_schedule_self x = (string_eq.agrees x.rest x.rest).1 refl

-- A server that suspends nothing by default.
abbrev admit : CronJob → CronJob
admit j =
    if j.spec.rest == "" then record j { spec = record j.spec { rest = "suspend: false" } } else j

-- The template has a schedule.
complete :
    (j : CronJob)
    → j.spec ≡ (defaulted same_schedule manager (portrait "default" "web") template).spec
    → admit j ≡ j
unfolding defaulting_template_pod_spec
complete j e = rw (subst (λ (x : CronJobSpec). (x.rest == "") ≡ false) (sym e) refl) refl

update_job-Converged_example :
    Keeps
      (updating admit (build_cron_job_namespaced_name manager (portrait "default" "web")))
      (Converged same_schedule same_schedule_self admit
        (build_cron_job_namespaced_name manager (portrait "default" "web"))
        (defaulted same_schedule manager (portrait "default" "web") template))
      none
      (update_job same_schedule manager (portrait "default" "web") job)
unfolding find
update_job-Converged_example =
    update_job-Converged same_schedule same_schedule_self admit manager (portrait "default" "web")
      job template none refl (refl, (refl, tt)) tt complete

cleanup_job-Gone_example :
    Keeps
      (cleaning (build_cron_job_namespaced_name manager (portrait "default" "web")))
      Gone
      none
      (cleanup_job manager (portrait "default" "web"))
cleanup_job-Gone_example = cleanup_job-Gone manager (portrait "default" "web") none

-- The portraits team-a/web and team/a-web have one CronJob.
build_cron_job_namespaced_name_clash_example :
    build_cron_job_namespaced_name manager (portrait "team-a" "web")
    ≡ build_cron_job_namespaced_name manager (portrait "team" "a-web")
build_cron_job_namespaced_name_clash_example =
    build_cron_job_namespaced_name_clash manager (portrait "team-a" "web") (portrait "team" "a-web")
      "team" "a" "web" refl refl refl refl
