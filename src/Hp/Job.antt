-- ===== src/Hp/Job.antt =====
-- The external algorithm jobs of horizontalportrait_controller.go: reconcileExternalAlgorithmJob and
-- the functions that clean a job up or fetch its result. A nil ExternalJob panics.
use kapacity.Common.{
  String, [], ◌∷◌, Option, none, some, if◌then◌else◌, ◌==◌, string_eq, Go, ok, err, errorf,
  wrap_err,
}
use kapacity.Common.Prog.{on_go, pure_go, then_go, Prog, done, ◌>>=◌, ◌>>◌, ask}
use kapacity.Api.Meta.{NamespacedName}
use kapacity.Api.Algorithm.{ExternalJobPortraitAlgorithm, PortraitAlgorithmJob}
use kapacity.Api.HorizontalPortrait.{HorizontalPortrait, HorizontalPortraitData}
use kapacity.Hp.Calls.{
  Code, Registry, load_job_type, store_job_type, delete_job_type, update_job, cleanup_job,
  fetch_result,
}

abbrev pub key_of : HorizontalPortrait → NamespacedName
key_of hp = record { namespace = hp.meta.namespace; name = hp.meta.name }

module _ (registry : Registry) where
  unfoldable pub cleanup_external_algorithm_job :
      HorizontalPortrait → (type : String) → Code (Go (Unit {0}))
  cleanup_external_algorithm_job hp type =
      if registry.has_job_controller type
      then (do
        cleaned ← ask (cleanup_job type hp)
        pure_go
            (wrap_err "failed to clean up external algorithm job of type %q" (type ∷ []) cleaned))
      else done (err (errorf "unknown external algorithm job type %q" (type ∷ [])))

  abbrev pub cleanup_seen : HorizontalPortrait → Option String → Code (Go (Unit {0}))
  cleanup_seen hp none = done (ok tt)
  cleanup_seen hp (some type) = do
    cleaned ← cleanup_external_algorithm_job hp type
    on_go cleaned (λ e. done (err e)) (λ u. do ask (delete_job_type (key_of hp)); done (ok tt))

  unfoldable pub cleanup_last_external_algorithm_job : HorizontalPortrait → Code (Go (Unit {0}))
  cleanup_last_external_algorithm_job hp = do
    seen ← ask (load_job_type (key_of hp))
    cleanup_seen hp seen

  -- The job of another type that was seen before is cleaned up first.
  unfoldable pub cleanup_previous :
      HorizontalPortrait → (type : String) → Option String → Code (Go (Unit {0}))
  cleanup_previous hp type none = done (ok tt)
  cleanup_previous hp type (some previous) =
      if type == previous then done (ok tt) else cleanup_external_algorithm_job hp previous

  unfoldable pub start_job : HorizontalPortrait → PortraitAlgorithmJob → Code (Go (Unit {0}))
  start_job hp job = do
    ask (store_job_type (key_of hp) job.type)
    updated ← ask (update_job job.type hp job)
    pure_go (wrap_err "failed to update external algorithm job" [] updated)

  unfoldable pub replace_job : HorizontalPortrait → PortraitAlgorithmJob → Code (Go (Unit {0}))
  replace_job hp job = do
    previous ← ask (load_job_type (key_of hp))
    cleaned ← cleanup_previous hp job.type previous
    then_go (wrap_err "failed to clean up previous external algorithm job" [] cleaned)
        (λ u. start_job hp job)

  unfoldable pub reconcile_external_algorithm_job :
      HorizontalPortrait → Option ExternalJobPortraitAlgorithm → Code (Go (Unit {0}))
  reconcile_external_algorithm_job hp none = Prog.crash
  reconcile_external_algorithm_job hp (some external) =
      if registry.has_job_controller external.job.type
      then replace_job hp external.job
      else done (err (errorf "unknown external algorithm job type %q" (external.job.type ∷ [])))

  unfoldable pub fetch_external_algorithm_job_result :
      HorizontalPortrait
      → Option ExternalJobPortraitAlgorithm
      → Code (Go (Option HorizontalPortraitData))
  fetch_external_algorithm_job_result hp none = Prog.crash
  fetch_external_algorithm_job_result hp (some external) =
      let source = external.result_source in
      if registry.has_result_fetcher source.type
      then ask (fetch_result source.type hp source)
      else done
          (err (errorf "unknown external algorithm job result source type %q" (source.type ∷ [])))
