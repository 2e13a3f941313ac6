-- ===== src/CronJob.antt =====
-- pkg/portrait/algorithm/externaljob/jobcontroller/cronjob.go: the CronJob that computes a portrait.
-- The API server is called; the semantic equality of specs is a parameter.
pub mod Update
pub mod Cluster
pub mod Cleanup
pub mod Names
mod Tests
use Prim.Native.String.{◌++◌ as joined}
use kapacity.Common.{
  Bool, true, false, not, ◌&&◌, ◌||◌, String, List, [], ◌∷◌, Option, none, some, if◌then◌else◌,
  ◌==◌, ◌++◌, string_eq, Go, ok, ◌>>=◌,
}
use kapacity.Common.Dict.{GoMap, entries, text_at, is_map_value_changed, copy_map_values}
use kapacity.Common.Prog.{Prog}
use kapacity.Api.Meta.{NamespacedName}
use kapacity.Api.Algorithm.{
  EnvVar, Container, CronJobSpec, CronJobTemplateSpec, PortraitAlgorithmJob,
}
use kapacity.Api.HorizontalPortrait.{HorizontalPortrait}

-- batchv1.CronJob
pub record CronJob : Type 0 where
  pub key : NamespacedName
  pub labels : GoMap String
  pub annotations : GoMap String
  pub spec : CronJobSpec

pub data Call : Type 0 where
  get_cron_job : NamespacedName → Call
  create_cron_job : CronJob → Call
  patch_cron_job : (original modified : CronJob) → Call
  delete_cron_job : CronJob → Call

abbrev pub Reply : Call → Type 0
Reply (get_cron_job n) = Go CronJob
Reply (create_cron_job j) = Go (Unit {0})
Reply (patch_cron_job o p) = Go (Unit {0})
Reply (delete_cron_job j) = Go (Unit {0})

abbrev pub Code : Type 0 → Type 0
Code = Prog Call Reply

pub record CronJobHorizontal : Type 0 where
  pub namespace : String
  pub default_service_account : String
  pub default_metrics_server_addr : String
  pub default_images : GoMap String

abbrev default_container : String
default_container = "algorithm"

unfoldable pub build_cron_job_namespaced_name :
    CronJobHorizontal → HorizontalPortrait → NamespacedName
build_cron_job_namespaced_name h hp = record {
  namespace = h.namespace;
  name = joined hp.meta.namespace (joined "-" hp.meta.name);
}

unfoldable pub has_env : String → List EnvVar → Bool
has_env name [] = false
has_env name (v ∷ vs) = v.name == name || has_env name vs

abbrev pub env_var : (name value : String) → EnvVar
env_var name value = record { name = name; value = value }

-- The variables of the container that runs the algorithm.
unfoldable pub default_env : CronJobHorizontal → HorizontalPortrait → List EnvVar → List EnvVar
unfolding has_env
default_env h hp env =
    let known =
      if has_env "METRICS_SERVER_ADDR" env
      then env
      else env ++ (env_var "METRICS_SERVER_ADDR" h.default_metrics_server_addr ∷ []) in
    known ++ (env_var "HP_NAMESPACE" hp.meta.namespace ∷ env_var "HP_NAME" hp.meta.name ∷ [])

unfoldable pub default_container_of : CronJobHorizontal → HorizontalPortrait → Container → Container
unfolding default_env
default_container_of h hp c = record c {
  image =
      if c.image == "" then text_at hp.spec.portrait.portrait_type h.default_images else c.image;
  env = default_env h hp c.env;
}

-- The loop over the containers, which ends at the first one of the name.
unfoldable pub default_containers :
    CronJobHorizontal → HorizontalPortrait → List Container → List Container
default_containers h hp [] = []
default_containers h hp (c ∷ cs) =
    if c.name == default_container
    then default_container_of h hp c ∷ cs
    else c ∷ default_containers h hp cs

-- The service account, where the template has none.
abbrev default_account : CronJobHorizontal → CronJobSpec → CronJobSpec
default_account h spec =
    if not (h.default_service_account == "")
      && (spec.service_account_name == "" && spec.deprecated_service_account == "")
    then record spec {
      service_account_name = h.default_service_account;
      deprecated_service_account = h.default_service_account;
    }
    else spec

unfoldable pub defaulting_template_pod_spec :
    CronJobHorizontal → HorizontalPortrait → CronJobSpec → CronJobSpec
unfolding default_containers
defaulting_template_pod_spec h hp spec = record (default_account h spec) {
  containers = default_containers h hp spec.containers;
}

-- An empty source leaves a nil map as it is.
unfoldable pub merge_map : GoMap String → GoMap String → Go (GoMap String)
merge_map old new = elim (entries new) [
  | [] ↦ ok old
  | e ∷ es ↦ copy_map_values (some (entries old)) new
]

-- The CronJob with the spec, labels and annotations of the template.
unfoldable pub patched_cron_job : CronJob → CronJobTemplateSpec → Go CronJob
patched_cron_job j t = do
  labels ← merge_map j.labels t.labels
  annotations ← merge_map j.annotations t.annotations
  ok (record j { labels = labels; annotations = annotations; spec = t.spec })
