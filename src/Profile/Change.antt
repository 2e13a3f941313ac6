-- ===== src/Profile/Change.antt =====
-- The state change of Reconcile: the workload, the sorter and the traffic controller are chosen,
-- the change is calculated, and the pods are moved. The workloads are the parameter of a section.
use Prim.Native.String.{◌++◌}
use kapacity.Common.{
  Bool, true, false, not, ◌&&◌, String, List, [], ◌∷◌, Option, none, some, if◌then◌else◌, ◌==◌,
  string_eq, discrete_eq, Eq, Go, ok, err, panic, Error, errorf,
}
use kapacity.Common.Int.{ℤ, pos}
use kapacity.Common.Range.{MapRange}
use kapacity.Common.Prog.{on_go, done, ◌>>=◌, ◌>>◌, ask}
use kapacity.Pod.Data.{Pod, PodState, online, cutoff, standby}
use kapacity.Pod.State.{ByState}
use kapacity.Pod.Sorter.{Sorter}
use kapacity.Pod.Manager.{StateChange, new_state_manager, calculate_state_change}
use kapacity.Workload.{Workload}
use kapacity.Api.Meta.{Condition, set_condition_in_list, TargetRef}
use kapacity.Api.ReplicaProfile.{
  ReplicaProfile, ReplicaProfileStatus, ReplicaProfileStatus-discrete, PodSorterType,
  workload_default, external_sorter, unknown_sorter, PodTrafficControllerType, readiness_gate,
  external_traffic, unknown_traffic,
}
use kapacity.Profile.Desired.{desired_online}
use kapacity.Profile.Calls.{Code, update_rp_status, event, clock}
use kapacity.Profile.Traffic.{UpdateCondition, on, off, set_pod_states}

-- What Reconcile returns: no error, or one.
pub data Outcome : Type 0 where
  finished : Outcome
  failed : Error → Outcome

abbrev with_conditions : ReplicaProfile → List Condition → ReplicaProfile
with_conditions rp cs = record rp { status = record rp.status { conditions = cs } }

unfoldable pub set_replica_profile_condition :
    ReplicaProfile → (type status reason message : String) → Code ReplicaProfile
set_replica_profile_condition rp type status reason message = do
  now ← ask clock
  done (
      with_conditions rp (
        set_condition_in_list now rp.status.conditions type status rp.meta.generation reason
          message))

abbrev pub status_eq : Eq ReplicaProfileStatus
status_eq = discrete_eq ReplicaProfileStatus-discrete

unfoldable pub update_status_if_needed :
    ReplicaProfile → ReplicaProfileStatus → Code (Go ReplicaProfile)
update_status_if_needed rp original =
    if status_eq.beq original rp.status then done (ok rp) else ask (update_rp_status rp)

unfoldable pub error_out :
    ReplicaProfile → ReplicaProfileStatus → (type reason message : String) → Code (Unit {0})
error_out rp original type reason message = do
  ask (event "Warning" reason [])
  changed ← set_replica_profile_condition rp type "False" reason message
  updated ← update_status_if_needed changed original
  on_go updated (λ e. done tt) (λ o. done tt)

unfoldable pub get_pod_sorter : PodSorterType → Go Sorter
get_pod_sorter external_sorter = err (errorf "todo" [])
get_pod_sorter workload_default = err (errorf "unknown pod sorter type %q" ("WorkloadDefault" ∷ []))
get_pod_sorter (unknown_sorter t) = err (errorf "unknown pod sorter type %q" (t ∷ []))

-- The traffic controller is of one kind.
unfoldable pub get_pod_traffic_controller : PodTrafficControllerType → Go (Unit {0})
get_pod_traffic_controller readiness_gate = ok tt
get_pod_traffic_controller external_traffic = err (errorf "todo" [])
get_pod_traffic_controller (unknown_traffic t) =
    err (errorf "unknown pod traffic controller type %q" (t ∷ []))

-- The workloads by the group and kind of the target, schema.FromAPIVersionAndKind as a parameter.
pub record Workloads : Type 0 where
  pub group_of : (api_version : String) → String
  pub replica_set : Workload
  pub deployment : Workload
  pub stateful_set : Workload

unfoldable pub get_workload : Workloads → TargetRef → Go Workload
get_workload w target =
    let in_apps = w.group_of target.api_version == "apps" in
    if in_apps && target.kind == "ReplicaSet"
    then ok w.replica_set
    else if in_apps && target.kind == "Deployment"
    then ok w.deployment
    else if in_apps && target.kind == "StatefulSet"
    then ok w.stateful_set
    else err (errorf "unknown workload with gvk %v" (target.kind ∷ []))

abbrev pub is_default : PodSorterType → Bool
is_default workload_default = true
is_default external_sorter = false
is_default (unknown_sorter t) = false

-- `util.GetPodNames` of pointers, which panics on nil.
abbrev pub names_of : List (Option Pod) → Go (List String)
names_of [] = ok []
names_of (none ∷ pods) = panic
names_of (some p ∷ pods) = elim (names_of pods) [
  | ok ns ↦ ok (p.name ∷ ns)
  | err e ↦ err e
  | panic ↦ panic
]

module _ (order : MapRange) (error_text : Error → String) (workloads : Workloads)
    (update_pod_condition : UpdateCondition) where
  -- The error of a type of condition is reported in the status, and returned.
  abbrev pub fail_with :
      ReplicaProfile → ReplicaProfileStatus → (type reason prefix : String) → Error → Code Outcome
  fail_with rp original type reason prefix e = do
    error_out rp original type reason (prefix ++ ": " ++ error_text e)
    done (failed e)

  abbrev pub mark :
      ReplicaProfile
      → ReplicaProfileStatus
      → List (Option Pod)
      → PodState
      → (word : String) → Code Outcome
      → Code Outcome
  mark rp original pods state word next = do
    bad ← set_pod_states pods state
    elim bad [
      | none ↦ next
      | some b ↦
          fail_with rp original "Applied" "FailedSetPodState"
            ("failed to mark pod \"" ++ b.0 ++ "\" " ++ word) b.1
    ]

  -- Pods that change to a state, which `traffic` prepares.
  unfoldable pub move_pods :
      ReplicaProfile
      → ReplicaProfileStatus
      → (done_event failure word : String) → (List (Option Pod) → Code (Go (List (Option Pod))))
      → PodState
      → List (Option Pod)
      → Code Outcome
      → Code Outcome
  move_pods rp original done_event failure word traffic state [] next = next
  move_pods rp original done_event failure word traffic state (p ∷ pods) next =
      on_go (names_of (p ∷ pods)) (λ e. done (failed e))
        (λ names. do
          ask (event "Normal" done_event names)
          moved ← traffic (p ∷ pods)
          on_go moved (fail_with rp original "Applied" failure ("failed to " ++ word ++ " pods"))
              (λ ps. mark rp original ps state word next))

  -- The pods to delete are told to a workload that can select them.
  unfoldable pub select_to_delete :
      ReplicaProfile
      → ReplicaProfileStatus
      → Workload
      → List (Option Pod)
      → Code Outcome
      → Code Outcome
  select_to_delete rp original w [] next = next
  select_to_delete rp original w (p ∷ pods) next =
      if w.can_select_pods_to_scale_down
      then on_go (names_of (p ∷ pods)) (λ e. done (failed e))
          (λ names. do
            ask (event "Normal" "SelectPodsToDelete" names)
            on_go (w.select_pods_to_scale_down (p ∷ pods))
                (fail_with rp original "Applied" "FailedSelectPodsToDelete"
                  "failed to select pods to delete")
                (λ _. next))
      else next

  unfoldable pub apply_change :
      ReplicaProfile → ReplicaProfileStatus → Workload → StateChange → Code Outcome → Code Outcome
  apply_change rp original w change next =
      move_pods rp original "OnlinePods" "FailedOnlinePods" "online" (on update_pod_condition)
        online change.to_online
        (move_pods rp original "CutoffPods" "FailedCutoffPods" "cutoff" (off update_pod_condition)
          cutoff change.to_cutoff
          (move_pods rp original "StandbyPods" "" "standby" (λ ps. done (ok ps)) standby
            change.to_standby (select_to_delete rp original w change.to_delete next)))

  abbrev pub desired_by_state : ReplicaProfile → ByState ℤ
  desired_by_state rp = record {
    of_online = desired_online rp;
    of_cutoff = rp.spec.cutoff_replicas;
    of_standby = rp.spec.standby_replicas;
    of_deleted = pos 0;
  }

  unfoldable pub change_states :
      ReplicaProfile
      → ReplicaProfileStatus
      → ByState (List Pod)
      → Workload
      → Sorter
      → Code Outcome
      → Code Outcome
  change_states rp original running w sorter next =
      on_go (get_pod_traffic_controller rp.spec.behavior.pod_traffic_controller)
        (fail_with rp original "Applied" "FailedGetPodTrafficController"
          "failed to get pod traffic controller")
        (λ _.
          on_go
            (calculate_state_change order sorter (new_state_manager (desired_by_state rp) running))
            (fail_with rp original "Applied" "FailedCalculateStateChange"
              "failed to calculate state change")
            (λ change. apply_change rp original w change.0 next))

  unfoldable pub with_workload :
      ReplicaProfile
      → ReplicaProfileStatus
      → ByState (List Pod)
      → Workload
      → Code Outcome
      → Code Outcome
  with_workload rp original running w next =
      if is_default rp.spec.behavior.pod_sorter
      then change_states rp original running w w.sorter next
      else if not w.can_select_pods_to_scale_down
      then (do
        error_out rp original "Applied" "PodSorterNotSupportedByWorkload"
            "the target workload does not support non default pod sorter"
        done finished)
      else on_go (get_pod_sorter rp.spec.behavior.pod_sorter)
          (fail_with rp original "Applied" "FailedGetPodSorter" "failed to get pod sorter")
          (λ sorter. change_states rp original running w sorter next)

  -- The state change, and what follows it.
  unfoldable pub run_state_change :
      ReplicaProfile → ReplicaProfileStatus → ByState (List Pod) → Code Outcome → Code Outcome
  run_state_change rp original running next =
      on_go (get_workload workloads rp.spec.scale_target_ref)
        (fail_with rp original "Applied" "FailedGetWorkload" "failed to get the target workload")
        (λ w. with_workload rp original running w next)
