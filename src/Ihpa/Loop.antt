-- ===== src/Ihpa/Loop.antt =====
-- Reconcile of the IHPA controller, from the request to the result.
pub mod Reports
pub mod Bounding
pub mod Writing
pub mod Bounded
pub mod Paused
use Prim.Native.String.{◌++◌}
use kapacity.Common.{
  Bool, true, false, not, ◌&&◌, ◌||◌, String, List, Option, none, some, if◌then◌else◌, discrete_eq,
  Eq, Go, ok, err, panic, Error, not_found,
}
use kapacity.Common.Int.{ℤ, pos, eqb_ℤ}
use kapacity.Common.Time.{is_zero_ptr}
use kapacity.Common.Range.{MapRange}
use kapacity.Common.Prog.{
  on_go, on_found, Prog, done, call, ◌>>=◌, ◌>>◌, ask, Outcome, requeue_after, failed, finished,
}
use kapacity.Util.Finalizer.{Finalizers}
use kapacity.Api.Meta.{NamespacedName}
use kapacity.Api.ReplicaProfile.{ReplicaProfile, ReplicaProfileSpec, ReplicaProfileSpec-discrete}
use kapacity.Api.Ihpa.{
  Ihpa, IhpaStatus, HorizontalPortraitValue, ScaleMode, auto, preview, unknown_mode,
}
use kapacity.Ihpa.Gray.{ReplicaData, Generated, generate_ihpa_replica_data}
use kapacity.Ihpa.Calls.{
  Call, Reply, Code, Providers, get_ihpa, patch_ihpa, create_rp, patch_rp, delete_rp, event,
  delete_identifiers, clock,
}
use kapacity.Ihpa.Profile.{new_replica_profile, update_replica_profile}
use kapacity.Ihpa.Portrait.{update_and_fetch_portrait_value}
use kapacity.Ihpa.Reconcile.{
  get_replica_profile, error_out, finish_active, finish_paused, limited_condition,
  progress_condition, store_value,
}

abbrev pub rp_spec_eq : Eq ReplicaProfileSpec
rp_spec_eq = discrete_eq ReplicaProfileSpec-discrete

abbrev pub same_replicas : ReplicaData → ReplicaProfile → Bool
same_replicas d rp =
    eqb_ℤ d.online_replicas rp.spec.online_replicas
    && (eqb_ℤ d.cutoff_replicas rp.spec.cutoff_replicas
        && eqb_ℤ d.standby_replicas rp.spec.standby_replicas)

abbrev pub paused_profile : ReplicaProfile → ReplicaProfile
paused_profile rp = record rp { spec = record rp.spec { paused = true } }

module _ (fin : Finalizers) (split : String → List String) (order : MapRange)
    (error_text : Error → String) (providers : Providers) where
  -- The error is reported in the status, and returned.
  abbrev pub fail_with : Ihpa → IhpaStatus → (reason prefix : String) → Error → Code Outcome
  fail_with ihpa original reason prefix e = do
    error_out ihpa original reason (prefix ++ ": " ++ error_text e)
    done (failed e)

  -- The part of the mode Preview.
  unfoldable pub remove_profile : Ihpa → IhpaStatus → Option ReplicaProfile → Code Outcome
  remove_profile ihpa original none = finish_active ihpa original (pos 0)
  remove_profile ihpa original (some rp) = do
    deleted ← ask (delete_rp rp)
    on_found deleted (finish_active ihpa original (pos 0))
        (fail_with ihpa original "FailedDeleteReplicaProfile" "failed to delete ReplicaProfile")
        (λ _. finish_active ihpa original (pos 0))

  abbrev pub announce_update : ReplicaData → ReplicaProfile → Code (Unit {0})
  announce_update d rp =
      if same_replicas d rp then done tt else ask (event "Normal" "UpdateReplicaProfile")

  -- The ReplicaProfile is created, or brought up to date.
  unfoldable pub write_profile :
      Ihpa
      → IhpaStatus
      → ReplicaData
      → Option ReplicaProfile
      → (ReplicaProfile → Code Outcome)
      → Code Outcome
  write_profile ihpa original d none next = do
    ask (event "Normal" "CreateReplicaProfile")
    created ← ask (create_rp (new_replica_profile ihpa d))
    on_go created
        (fail_with ihpa original "FailedCreateReplicaProfile" "failed to create ReplicaProfile")
        next
  write_profile ihpa original d (some rp) next = do
    announce_update d rp
    (if rp_spec_eq.beq (update_replica_profile ihpa d rp).spec rp.spec
        then next (update_replica_profile ihpa d rp)
        else (do
          patched ← ask (patch_rp rp (update_replica_profile ihpa d rp))
          on_go patched
              (fail_with ihpa original "FailedUpdateReplicaProfile"
                "failed to patch ReplicaProfile")
              next))

  -- The part of the mode Auto.
  unfoldable pub apply_generated : IhpaStatus → Option ReplicaProfile → Generated → Code Outcome
  apply_generated original rp g = do
    limited ← limited_condition g.ihpa g.replica_cap
    write_profile limited original g.replicas rp (λ written. do
      progressed ← progress_condition limited written
      finish_active progressed original g.remain_time)

  unfoldable pub by_mode : Ihpa → IhpaStatus → Option ReplicaProfile → ScaleMode → Code Outcome
  by_mode ihpa original rp auto = do
    now ← ask clock
    on_go (generate_ihpa_replica_data now ihpa) (λ e. done (failed e)) (apply_generated original rp)
  by_mode ihpa original rp preview = remove_profile ihpa original rp
  by_mode ihpa original rp (unknown_mode m) = finish_active ihpa original (pos 0)

  unfoldable pub scale_ihpa : Ihpa → IhpaStatus → Code Outcome
  scale_ihpa ihpa original = do
    rp ← get_replica_profile ihpa
    on_go rp (fail_with ihpa original "FailedGetReplicaProfile" "failed to get ReplicaProfile")
        (λ found. by_mode ihpa original found ihpa.spec.scale_mode)

  unfoldable pub with_value : Ihpa → IhpaStatus → Option HorizontalPortraitValue → Code Outcome
  with_value ihpa original none = do
    error_out ihpa original "NoValidPortraitValue" "no valid portrait value for now"
    done finished
  with_value ihpa original (some v) = do
    stored ← store_value ihpa original v
    on_go stored (λ e. done (failed e)) (λ s. scale_ihpa s.0 s.1)

  unfoldable pub reconcile_active : Ihpa → IhpaStatus → Code Outcome
  reconcile_active ihpa original = do
    value ← update_and_fetch_portrait_value split order providers ihpa
    on_go value
        (fail_with ihpa original "FailedUpdateAndFetchPortraitValue"
          "failed to update and fetch portrait value")
        (with_value ihpa original)

  unfoldable pub pause_profile : Ihpa → IhpaStatus → Option ReplicaProfile → Code Outcome
  pause_profile ihpa original none = finish_paused ihpa original
  pause_profile ihpa original (some rp) =
      if rp.spec.paused then finish_paused ihpa original else (do
        patched ← ask (patch_rp rp (paused_profile rp))
        on_go patched
            (fail_with ihpa original "FailedUpdateReplicaProfile" "failed to patch ReplicaProfile")
            (λ _. finish_paused ihpa original))

  unfoldable pub reconcile_paused : Ihpa → IhpaStatus → Code Outcome
  reconcile_paused ihpa original = do
    rp ← get_replica_profile ihpa
    on_go rp (fail_with ihpa original "FailedGetReplicaProfile" "failed to get ReplicaProfile")
        (pause_profile ihpa original)

  unfoldable pub reconcile_live : Ihpa → Code Outcome
  reconcile_live ihpa =
      if ihpa.spec.paused
      then reconcile_paused ihpa ihpa.status
      else reconcile_active ihpa ihpa.status

  unfoldable pub ensure_finalizer : Ihpa → Code (Go Ihpa)
  ensure_finalizer ihpa =
      if fin.contains ihpa.meta
      then done (ok ihpa)
      else ask (patch_ihpa ihpa (record ihpa { meta = fin.add ihpa.meta }))

  unfoldable pub remove_finalizer : Ihpa → Code (Go Ihpa)
  remove_finalizer ihpa =
      if fin.contains ihpa.meta
      then ask (patch_ihpa ihpa (record ihpa { meta = fin.remove ihpa.meta }))
      else done (ok ihpa)

  unfoldable pub reconcile_deleted : NamespacedName → Ihpa → Code Outcome
  reconcile_deleted request ihpa =
      if fin.contains ihpa.meta
      then (do
        ask (delete_identifiers request)
        removed ← remove_finalizer ihpa
        on_go removed (λ e. done (failed e)) (λ _. done finished))
      else done finished

  unfoldable pub reconcile_found : NamespacedName → Ihpa → Code Outcome
  reconcile_found request ihpa =
      if is_zero_ptr ihpa.meta.deletion_timestamp
      then (do ensured ← ensure_finalizer ihpa; on_go ensured (λ e. done (failed e)) reconcile_live)
      else reconcile_deleted request ihpa

  unfoldable pub reconcile : NamespacedName → Code Outcome
  reconcile request = do
    found ← ask (get_ihpa request)
    on_found found (done finished) (λ e. done (failed e)) (reconcile_found request)
