-- ===== src/Profile/Loop.antt =====
-- Reconcile of the ReplicaProfile controller, from the request to the result. Logs are left out, and
-- so are the messages of events.
pub mod Careful
pub mod Enforced
pub mod Measured
pub mod Moving
pub mod Paused
pub mod Reports
pub mod Scaling
use Prim.Native.String.{◌++◌}
use kapacity.Common.{
  ℕ, Bool, true, false, not, ◌&&◌, ◌||◌, String, List, [], length, if◌then◌else◌, Go, ok, err,
  panic, Error, not_found,
}
use kapacity.Common.Int.{pos, eqb_ℤ, int32}
use kapacity.Common.Time.{is_zero_ptr}
use kapacity.Common.Range.{MapRange}
use kapacity.Common.Prog.{on_go, on_found, Prog, done, ◌>>=◌, ◌>>◌, ask}
use kapacity.Util.Finalizer.{Finalizers}
use kapacity.Util.Selector.{Selector, parse_scale_selector}
use kapacity.Pod.Data.{Pod}
use kapacity.Pod.State.{ByState, filter_and_classify_by_running_state}
use kapacity.Scale.{Scale, GroupResource}
use kapacity.Api.Meta.{NamespacedName}
use kapacity.Api.ReplicaProfile.{ReplicaProfile, ReplicaProfileStatus}
use kapacity.Profile.Desired.{is_ensured, need_state_change, desired_replicas}
use kapacity.Profile.Calls.{
  Code, get_rp, patch_rp, event, get_scale, update_scale, list_pods, cache_selector,
  delete_selector,
}
use kapacity.Profile.Traffic.{UpdateCondition}
use kapacity.Profile.Change.{
  Outcome, finished, failed, set_replica_profile_condition, update_status_if_needed, fail_with,
  Workloads, run_state_change,
}

-- The counts of the running pods, as the status has them.
unfoldable pub reflect_status : ByState (List Pod) → ReplicaProfile → ReplicaProfile
reflect_status running rp = record rp {
  status = record rp.status {
    online_replicas = int32 (pos (length running.of_online));
    cutoff_replicas = int32 (pos (length running.of_cutoff));
    standby_replicas = int32 (pos (length running.of_standby));
  };
}

abbrev pub ensured_condition : ReplicaProfile → Code ReplicaProfile
ensured_condition rp =
    if is_ensured rp
    then set_replica_profile_condition rp "Ensured" "True" "ReplicaProfileEnsured"
        "current replica profile is ensured"
    else set_replica_profile_condition rp "Ensured" "False" "ReplicaNumberNotSatisfied"
        "the number of replicas of some states do not meet the expectation"

abbrev pub applied_condition : Bool → ReplicaProfile → Code ReplicaProfile
applied_condition true rp =
    set_replica_profile_condition rp "Applied" "True" "ReplicaProfileApplied"
      "all the operations for ensuring the replica profile are applied"
applied_condition false rp =
    set_replica_profile_condition rp "Applied" "False" "StateChangeSkipped"
      "state change skipped as the number of current running pods observed mismatch the desired replicas of the target workload"

abbrev key_of : ReplicaProfile → NamespacedName
key_of rp = record { namespace = rp.meta.namespace; name = rp.meta.name }

module _ (fin : Finalizers) (parse : String → Go Selector) (order : MapRange)
    (error_text : Error → String) (workloads : Workloads)
    (update_pod_condition : UpdateCondition) where
  abbrev pub fail :
      ReplicaProfile → ReplicaProfileStatus → (type reason prefix : String) → Error → Code Outcome
  fail = fail_with order error_text workloads update_pod_condition

  abbrev pub save : ReplicaProfile → ReplicaProfileStatus → Code Outcome
  save rp original = do
    updated ← update_status_if_needed rp original
    on_go updated (λ e. done (failed e)) (λ _. done finished)

  -- The end: the condition Applied.
  abbrev pub conclude : ReplicaProfile → ReplicaProfileStatus → (can : Bool) → Code Outcome
  conclude rp original can = do
    applied ← applied_condition (not (need_state_change rp) || can) rp
    save applied original

  -- The target is scaled, if its replicas are others.
  unfoldable pub rescale :
      ReplicaProfile → ReplicaProfileStatus → Scale → GroupResource → (can : Bool) → Code Outcome
  rescale rp original scale target can =
      if eqb_ℤ (desired_replicas rp) scale.replicas then conclude rp original can else (do
        ask (event "Normal" "UpdateScale" [])
        updated ← ask (
            update_scale rp.meta.namespace target (record scale { replicas = desired_replicas rp }))
        on_go updated
            (fail rp original "Applied" "FailedUpdateScale" "failed to update the target's scale")
            (λ _. conclude rp original can))

  -- What is done for a ReplicaProfile whose numbers are not met.
  unfoldable pub enforce :
      ReplicaProfile
      → ReplicaProfileStatus
      → Scale
      → GroupResource
      → ByState (List Pod)
      → ℕ
      → Code Outcome
  enforce rp original scale target running count =
      let can = eqb_ℤ (pos count) scale.replicas in
      if need_state_change rp && can
      then run_state_change order error_text workloads update_pod_condition rp original running
          (rescale rp original scale target can)
      else rescale rp original scale target can

  unfoldable pub with_pods :
      ReplicaProfile
      → ReplicaProfileStatus
      → Scale
      → GroupResource
      → ByState (List Pod) × ℕ
      → Code Outcome
  with_pods rp original scale target (running, count) = do
    marked ← ensured_condition (reflect_status running rp)
    updated ← update_status_if_needed marked original
    on_go updated (λ e. done (failed e))
        (λ saved.
          if is_ensured (reflect_status running rp)
          then done finished
          else enforce saved saved.status scale target running count)

  unfoldable pub with_selector :
      NamespacedName → ReplicaProfile → Scale → GroupResource → Selector → Code Outcome
  with_selector request rp scale target selector = do
    ask (cache_selector request selector)
    listed ← ask (list_pods rp.meta.namespace selector)
    on_go listed (fail rp rp.status "Ensured" "FailedListPods" "failed to list the target's Pods")
        (λ pods. with_pods rp rp.status scale target (filter_and_classify_by_running_state pods))

  unfoldable pub with_scale : NamespacedName → ReplicaProfile → Scale × GroupResource → Code Outcome
  with_scale request rp (scale, target) =
      on_go (parse_scale_selector parse scale.selector)
        (fail rp rp.status "Ensured" "InvalidSelector"
          ("failed to parse label selector \"" ++ scale.selector ++ "\" of scale"))
        (with_selector request rp scale target)

  unfoldable pub reconcile_active : NamespacedName → ReplicaProfile → Code Outcome
  reconcile_active request rp = do
    found ← ask (get_scale rp.meta.namespace rp.spec.scale_target_ref)
    on_go found
        (fail rp rp.status "Ensured" "FailedGetScale" "failed to get the target's current scale")
        (with_scale request rp)

  unfoldable pub reconcile_paused : ReplicaProfile → Code Outcome
  reconcile_paused rp = do
    once ←
        set_replica_profile_condition rp "Applied" "False" "ReplicaProfilePaused"
          "the replica profile is paused"
    twice ←
        set_replica_profile_condition once "Ensured" "False" "ReplicaProfilePaused"
          "the replica profile is paused"
    save twice rp.status

  unfoldable pub ensure_finalizer : ReplicaProfile → Code (Go ReplicaProfile)
  ensure_finalizer rp =
      if fin.contains rp.meta
      then done (ok rp)
      else ask (patch_rp rp (record rp { meta = fin.add rp.meta }))

  unfoldable pub remove_finalizer : ReplicaProfile → Code (Go ReplicaProfile)
  remove_finalizer rp =
      if fin.contains rp.meta
      then ask (patch_rp rp (record rp { meta = fin.remove rp.meta }))
      else done (ok rp)

  unfoldable pub reconcile_deleted : NamespacedName → ReplicaProfile → Code Outcome
  reconcile_deleted request rp =
      if fin.contains rp.meta
      then (do
        ask (delete_selector request)
        removed ← remove_finalizer rp
        on_go removed (λ e. done (failed e)) (λ _. done finished))
      else done finished

  unfoldable pub reconcile_live : NamespacedName → ReplicaProfile → Code Outcome
  reconcile_live request rp =
      if rp.spec.paused then reconcile_paused rp else reconcile_active request rp

  unfoldable pub reconcile_found : NamespacedName → ReplicaProfile → Code Outcome
  reconcile_found request rp =
      if is_zero_ptr rp.meta.deletion_timestamp
      then (do
        ensured ← ensure_finalizer rp
        on_go ensured (λ e. done (failed e)) (reconcile_live request))
      else reconcile_deleted request rp

  unfoldable pub reconcile : NamespacedName → Code Outcome
  reconcile request = do
    found ← ask (get_rp request)
    on_found found (done finished) (λ e. done (failed e)) (reconcile_found request)
