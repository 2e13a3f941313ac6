-- ===== src/Hp/Loop.antt =====
-- Reconcile of horizontalportrait_controller.go, from the request to the result. Logs are left out,
-- and so are the messages of events. The text of an error (`err.Error()`) is a parameter.
pub mod Jobs
use Prim.Native.String.{◌++◌}
use kapacity.Common.{
  Bool, String, [], ◌∷◌, List, Option, none, some, if◌then◌else◌, ◌==◌, string_eq, discrete_eq, Eq,
  Go, ok, err, Error, errorf,
}
use kapacity.Common.Int.{ℤ, pos}
use kapacity.Common.Time.{is_zero_ptr}
use kapacity.Common.Prog.{
  on_go, on_found, Prog, done, ◌>>=◌, ◌>>◌, ask, Outcome, requeue_after, failed, finished,
}
use kapacity.Util.Finalizer.{Finalizers}
use kapacity.Api.Meta.{Condition, NamespacedName, set_condition_in_list}
use kapacity.Api.HorizontalPortrait.{
  HorizontalPortrait, HorizontalPortraitData, HorizontalPortraitStatus,
  HorizontalPortraitStatus-discrete,
}
use kapacity.Hp.Calls.{
  Code, Registry, get_hp, patch_hp, update_hp_status, event, generate_horizontal, clock,
}
use kapacity.Hp.Job.{
  cleanup_last_external_algorithm_job, reconcile_external_algorithm_job,
  fetch_external_algorithm_job_result,
}

abbrev with_conditions : HorizontalPortrait → List Condition → HorizontalPortrait
with_conditions hp cs = record hp { status = record hp.status { conditions = cs } }

unfoldable pub set_horizontal_portrait_condition :
    HorizontalPortrait → (type status reason message : String) → Code HorizontalPortrait
set_horizontal_portrait_condition hp type status reason message = do
  now ← ask clock
  done (
      with_conditions hp (
        set_condition_in_list now hp.status.conditions type status hp.meta.generation reason
          message))

abbrev pub status_eq : Eq HorizontalPortraitStatus
status_eq = discrete_eq HorizontalPortraitStatus-discrete

unfoldable pub update_status_if_needed :
    HorizontalPortrait → HorizontalPortraitStatus → Code (Go HorizontalPortrait)
update_status_if_needed hp original =
    if status_eq.beq original hp.status then done (ok hp) else ask (update_hp_status hp)

unfoldable pub error_out :
    HorizontalPortrait → HorizontalPortraitStatus → (reason message : String) → Code (Unit {0})
error_out hp original reason message = do
  ask (event "Warning" reason)
  changed ← set_horizontal_portrait_condition hp "PortraitGenerated" "False" reason message
  updated ← update_status_if_needed changed original
  on_go updated (λ e. done tt) (λ o. done tt)

-- The predicate of the watch: portraits of an external generator are left alone.
unfoldable pub is_own : HorizontalPortrait → Bool
is_own hp = hp.spec.portrait.external_generator_name == ""

abbrev pub with_data : HorizontalPortrait → HorizontalPortraitData → HorizontalPortrait
with_data hp data_of = record hp { status = record hp.status { portrait_data = some data_of } }

-- The end of a reconciliation, with the data that was generated or fetched.
unfoldable pub store_data :
    HorizontalPortrait → HorizontalPortraitStatus → Option HorizontalPortraitData → ℤ → Code Outcome
store_data hp original none delay = done (requeue_after delay)
store_data hp original (some data_of) delay = do
  changed ←
      set_horizontal_portrait_condition (with_data hp data_of) "PortraitGenerated" "True"
        "SucceededGeneratePortrait" "portrait has been successfully generated"
  updated ← update_status_if_needed changed original
  on_go updated (λ e. done (failed e)) (λ o. done (requeue_after delay))

module _ (fin : Finalizers) (registry : Registry) (error_text : Error → String) where
  -- The error is reported in the status, and returned.
  abbrev pub fail_with :
      HorizontalPortrait
      → HorizontalPortraitStatus
      → (reason prefix : String) → Error
      → Code Outcome
  fail_with hp original reason prefix e = do
    error_out hp original reason (prefix ++ ": " ++ error_text e)
    done (failed e)

  unfoldable pub reconcile_external : HorizontalPortrait → Code Outcome
  reconcile_external hp = do
    reconciled ←
        reconcile_external_algorithm_job registry hp hp.spec.portrait.algorithm.external_job
    on_go reconciled
        (fail_with hp hp.status "FailedReconcileExternalAlgorithmJob"
          "failed to reconcile external algorithm job")
        (λ u. do
          fetched ←
              fetch_external_algorithm_job_result registry hp
                hp.spec.portrait.algorithm.external_job
          on_go fetched
              (fail_with hp hp.status "FailedFetchExternalAlgorithmJobResult"
                "failed to fetch external algorithm job result")
              (λ data_of. store_data hp hp.status data_of (pos 0)))

  unfoldable pub generate : HorizontalPortrait → Code Outcome
  generate hp =
      let spec = hp.spec.portrait in
      if registry.has_generator spec.portrait_type
      then (do
        generated ← ask (
            generate_horizontal spec.portrait_type hp.meta.namespace hp.spec.scale_target_ref
              spec.metrics spec.algorithm)
        on_go generated
            (fail_with hp hp.status "FailedGeneratePortrait" "failed to generate portrait")
            (λ g. store_data hp hp.status g.0 g.1))
      else (do
        error_out hp hp.status "FailedGetPortraitGenerator" (
            "failed to get portrait generator: "
            ++ error_text (errorf "unknown portrait type %q" (spec.portrait_type ∷ [])))
        done finished)

  unfoldable pub reconcile_internal : HorizontalPortrait → Code Outcome
  reconcile_internal hp = do
    cleaned ← cleanup_last_external_algorithm_job registry hp
    on_go cleaned
        (fail_with hp hp.status "FailedCleanupExternalAlgorithmJob"
          "failed to clean up external algorithm job")
        (λ u. generate hp)

  unfoldable pub reconcile_live : HorizontalPortrait → Code Outcome
  reconcile_live hp =
      if hp.spec.portrait.algorithm.type == "ExternalJob"
      then reconcile_external hp
      else reconcile_internal hp

  unfoldable pub ensure_finalizer : HorizontalPortrait → Code (Go HorizontalPortrait)
  ensure_finalizer hp =
      if fin.contains hp.meta
      then done (ok hp)
      else ask (patch_hp hp (record hp { meta = fin.add hp.meta }))

  unfoldable pub remove_finalizer : HorizontalPortrait → Code (Go HorizontalPortrait)
  remove_finalizer hp =
      if fin.contains hp.meta
      then ask (patch_hp hp (record hp { meta = fin.remove hp.meta }))
      else done (ok hp)

  unfoldable pub reconcile_deleted : HorizontalPortrait → Code Outcome
  reconcile_deleted hp =
      if fin.contains hp.meta
      then (do
        cleaned ← cleanup_last_external_algorithm_job registry hp
        on_go cleaned
            (λ e. do ask (event "Warning" "FailedCleanupExternalAlgorithmJob"); done (failed e))
            (λ u. do
              removed ← remove_finalizer hp
              on_go removed (λ e. done (failed e)) (λ o. done finished)))
      else done finished

  unfoldable pub reconcile_found : HorizontalPortrait → Code Outcome
  reconcile_found hp =
      if is_zero_ptr hp.meta.deletion_timestamp
      then (do ensured ← ensure_finalizer hp; on_go ensured (λ e. done (failed e)) reconcile_live)
      else reconcile_deleted hp

  unfoldable pub reconcile : NamespacedName → Code Outcome
  reconcile request = do
    found ← ask (get_hp request)
    on_found found (done finished) (λ e. done (failed e)) reconcile_found
