-- ===== src/CronJob/Update.antt =====
-- UpdateJob and CleanupJob of cronjob.go.
use kapacity.Common.{
  Bool, not, ◌&&◌, [], ◌∷◌, none, some, if◌then◌else◌, Go, ok, err, Error, wrap_err, wrapf,
}
use kapacity.Common.Dict.{is_map_value_changed}
use kapacity.Common.Prog.{on_go, on_found, pure_go, Prog, done, ◌>>=◌, ask}
use kapacity.Api.Meta.{NamespacedName, key_text}
use kapacity.Api.Algorithm.{CronJobSpec, CronJobTemplateSpec, PortraitAlgorithmJob}
use kapacity.Api.HorizontalPortrait.{HorizontalPortrait}
use kapacity.CronJob.{
  CronJob, Code, CronJobHorizontal, get_cron_job, create_cron_job, patch_cron_job, delete_cron_job,
  build_cron_job_namespaced_name, defaulting_template_pod_spec, patched_cron_job,
}

abbrev pub new_cron_job : NamespacedName → CronJobTemplateSpec → CronJob
new_cron_job n t = record { key = n; labels = t.labels; annotations = t.annotations; spec = t.spec }

module _ (same_spec : CronJobSpec → CronJobSpec → Bool) where
  unfoldable pub in_step : CronJob → CronJobTemplateSpec → Bool
  in_step j t =
      same_spec j.spec t.spec
      && (not (is_map_value_changed j.labels t.labels)
          && not (is_map_value_changed j.annotations t.annotations))

  unfoldable pub bring_in_step : CronJob → CronJobTemplateSpec → Code (Go (Unit {0}))
  bring_in_step j t =
      if in_step j t
      then done (ok tt)
      else on_go (patched_cron_job j t) (λ e. done (err e))
          (λ new. do
            patched ← ask (patch_cron_job j new)
            pure_go (wrap_err "failed to patch CronJob %q" (key_text j.key ∷ []) patched))

  unfoldable pub create_job : NamespacedName → CronJobTemplateSpec → Code (Go (Unit {0}))
  create_job n t = do
    created ← ask (create_cron_job (new_cron_job n t))
    pure_go (wrap_err "failed to create CronJob %q" (key_text n ∷ []) created)

  unfoldable pub update_to : NamespacedName → CronJobTemplateSpec → Code (Go (Unit {0}))
  update_to n t = do
    found ← ask (get_cron_job n)
    on_found found (create_job n t)
        (λ e. done (err (wrapf "failed to get CronJob %q" (key_text n ∷ []) e)))
        (λ j. bring_in_step j t)

  -- The template, with the defaults filled in.
  abbrev pub defaulted :
      CronJobHorizontal → HorizontalPortrait → CronJobTemplateSpec → CronJobTemplateSpec
  defaulted h hp t = record t { spec = defaulting_template_pod_spec h hp t.spec }

  -- A nil CronJob panics.
  unfoldable pub update_job :
      CronJobHorizontal → HorizontalPortrait → PortraitAlgorithmJob → Code (Go (Unit {0}))
  update_job h hp cfg = elim cfg.cron_job [
    | none ↦ Prog.crash
    | some t ↦ update_to (build_cron_job_namespaced_name h hp) (defaulted h hp t)
  ]

-- `client.IgnoreNotFound`
abbrev pub ignore_not_found : Go (Unit {0}) → Go (Unit {0})
ignore_not_found (err Error.not_found) = ok tt
ignore_not_found r = r

unfoldable pub cleanup_job : CronJobHorizontal → HorizontalPortrait → Code (Go (Unit {0}))
cleanup_job h hp = do
  found ← ask (get_cron_job (build_cron_job_namespaced_name h hp))
  on_found found (done (ok tt))
      (λ e. done (
        err (
          wrapf "failed to get CronJob %q" (key_text (build_cron_job_namespaced_name h hp) ∷ [])
            e)))
      (λ j. do
        deleted ← ask (delete_cron_job j)
        pure_go (
            wrap_err "failed to delete CronJob %q"
              (key_text (build_cron_job_namespaced_name h hp) ∷ []) (ignore_not_found deleted)))
