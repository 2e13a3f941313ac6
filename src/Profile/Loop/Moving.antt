-- ===== src/Profile/Loop/Moving.antt =====
-- The state change of Reconcile of the ReplicaProfile controller, under any contract that allows
-- reports and changes of pods.
use Prim.Native.String.{◌++◌}
use kapacity.Common.{String, List, [], ◌∷◌, Option, none, some, Go, ok, err, panic, Error, not}
use kapacity.Common.Range.{MapRange}
use kapacity.Common.Prog.{Contract, Safe, then_go, ask}
use kapacity.Common.Time.{zero_time}
use kapacity.Pod.Data.{Pod, PodState, PodCondition, online, cutoff, standby}
use kapacity.Pod.State.{ByState, set_state}
use kapacity.Pod.Sorter.{Sorter}
use kapacity.Pod.Manager.{StateChange, StateManager, new_state_manager, calculate_state_change}
use kapacity.Workload.{Workload}
use kapacity.Api.ReplicaProfile.{ReplicaProfile, ReplicaProfileStatus}
use kapacity.Profile.Calls.{Call, Reply, Code, patch_pod, patch_pod_status}
use kapacity.Profile.Traffic.{
  UpdateCondition, on, off, set_gates, set_readiness_gate_status, set_pod_state, set_pod_states,
  readiness_gate_online,
}
use kapacity.Profile.Change.{
  Outcome, Workloads, move_pods, select_to_delete, apply_change, change_states, with_workload,
  run_state_change, error_out, fail_with, mark, names_of, is_default, get_pod_sorter, get_workload,
  get_pod_traffic_controller, desired_by_state,
}
use kapacity.Profile.Loop.Reports.{
  AllowsReports, and_then, if-Fine, on_go-Fine, error_out-Fine, fail_with-Fine,
}

-- The contract allows the changes of pods, if some proposition holds.
pub record AllowsMoves (t : Contract Call Reply) : Type 0 where
  pub patched : (o p : Pod) → t.allows (patch_pod o p)
  pub gated : (o p : Pod) → t.allows (patch_pod_status o p)

module _ (t : Contract Call Reply) (a : AllowsReports t) (b : AllowsMoves t) where
  open a use {panicking, evented}
  open b use {patched, gated}

  abbrev Fine : {A : Type 0} → Code A → Type 0
  Fine m = Safe t (λ r. Unit) m

  -- A result that is matched on is split into its three cases.
  go_cases :
      {A : Type 0} (P : Go A → Type 0)
      → ((x : A) → P (ok x))
      → ((e : Error) → P (err e))
      → P panic
      → (r : Go A) → P r
  go_cases P h k c (ok x) = h x
  go_cases P h k c (err e) = k e
  go_cases P h k c panic = c

  set_pod_state-Fine : (pod : Pod) (state : PodState) → Fine (set_pod_state pod state)
  unfolding set_pod_state
  set_pod_state-Fine pod state =
      go_cases (λ r. Fine (then_go r (λ p. ask (patch_pod pod p))))
        (λ p. (patched pod p, λ q h. tt)) (λ e. tt) panicking (set_state pod state)

  set_pod_states-Fine :
      (pods : List (Option Pod)) (state : PodState) → Fine (set_pod_states pods state)
  unfolding set_pod_states
  set_pod_states-Fine [] state = tt
  set_pod_states-Fine (none ∷ pods) state = panicking
  set_pod_states-Fine (some pod ∷ pods) state =
      and_then t a (set_pod_state pod state) _ (set_pod_state-Fine pod state)
        (go_cases _ (λ q. set_pod_states-Fine pods state) (λ e. tt) panicking)

  abbrev gate : (status : String) → PodCondition
  gate status = record {
    type = readiness_gate_online;
    status = status;
    last_transition_time = zero_time;
  }

  set_readiness_gate_status-Fine :
      (update_pod_condition : UpdateCondition) (pod : Pod) (status : String)
      → Fine (set_readiness_gate_status update_pod_condition pod status)
  unfolding set_readiness_gate_status
  set_readiness_gate_status-Fine update_pod_condition pod status =
      if-Fine t a (update_pod_condition pod.conditions (gate status)).1 _ _
        (λ e. (gated pod _, λ q h. tt)) (λ e. tt)

  set_gates-Fine :
      (update_pod_condition : UpdateCondition) (status : String) (pods : List (Option Pod))
      → Fine (set_gates update_pod_condition status pods)
  unfolding set_gates
  set_gates-Fine update_pod_condition status [] = tt
  set_gates-Fine update_pod_condition status (none ∷ pods) = panicking
  set_gates-Fine update_pod_condition status (some pod ∷ pods) =
      and_then t a (set_readiness_gate_status update_pod_condition pod status) _
        (set_readiness_gate_status-Fine update_pod_condition pod status)
        (go_cases _
          (λ q.
            and_then t a (set_gates update_pod_condition status pods) _
              (set_gates-Fine update_pod_condition status pods)
              (go_cases _ (λ ps. tt) (λ e. tt) panicking))
          (λ e. tt) panicking)

  select_to_delete-Fine :
      (order : MapRange) (error_text : Error → String) (workloads : Workloads)
      → (update_pod_condition : UpdateCondition) (rp : ReplicaProfile)
      → (original : ReplicaProfileStatus) (w : Workload) (pods : List (Option Pod))
      → (next : Code Outcome) → Fine next
      → Fine
          (select_to_delete order error_text workloads update_pod_condition rp original w pods next)
  unfolding select_to_delete
  select_to_delete-Fine order error_text workloads update rp original w [] next h = h
  select_to_delete-Fine order error_text workloads update rp original w (p ∷ pods) next h =
      if-Fine t a w.can_select_pods_to_scale_down _ _
        (λ e.
          on_go-Fine t a (names_of (p ∷ pods)) _ _ (λ d. tt)
            (λ names. (
              evented "Normal" "SelectPodsToDelete" names,
              λ r u.
                  on_go-Fine t a (w.select_pods_to_scale_down (p ∷ pods)) _ _
                    (fail_with-Fine t a order error_text workloads update rp original _ _ _)
                    (λ _. h),
            )))
        (λ e. h)

  module _ (order : MapRange) (error_text : Error → String) (workloads : Workloads)
      (update : UpdateCondition) (rp : ReplicaProfile) (original : ReplicaProfileStatus) where
    failing :
        (type reason prefix : String) (e : Error)
        → Fine (fail_with order error_text workloads update rp original type reason prefix e)
    failing = fail_with-Fine t a order error_text workloads update rp original

    move_pods-Fine :
        (done_event failure word : String)
        → (traffic : List (Option Pod) → Code (Go (List (Option Pod)))) (state : PodState)
        → (pods : List (Option Pod)) (next : Code Outcome)
        → ((ps : List (Option Pod)) → Fine (traffic ps))
        → Fine next
        → Fine (
            move_pods order error_text workloads update rp original done_event failure word traffic
              state pods next)
    unfolding move_pods
    move_pods-Fine done_event failure word traffic state [] next h k = k
    move_pods-Fine done_event failure word traffic state (p ∷ pods) next h k =
        on_go-Fine t a (names_of (p ∷ pods)) _ _ (λ e. tt)
          (λ names. (
            evented "Normal" done_event names,
            λ r u.
                and_then t a (traffic (p ∷ pods)) _ (h (p ∷ pods))
                  (λ moved. on_go-Fine t a moved _ _ (failing _ _ _) marked),
          ))
      where
        chosen :
            (bad : Option (String × Error))
            → Fine (elim bad [
              | none ↦ next
              | some b ↦
                  fail_with order error_text workloads update rp original "Applied"
                    "FailedSetPodState"
                    ("failed to mark pod \"" ++ b.0 ++ "\" " ++ word)
                    b.1
            ])
        chosen none = k
        chosen (some b) = failing _ _ _ b.1

        marked :
            (ps : List (Option Pod))
            → Fine (mark order error_text workloads update rp original ps state word next)
        marked ps = and_then t a (set_pod_states ps state) _ (set_pod_states-Fine ps state) chosen

    apply_change-Fine :
        (w : Workload) (change : StateChange) (next : Code Outcome)
        → Fine next
        → Fine (apply_change order error_text workloads update rp original w change next)
    unfolding apply_change
    apply_change-Fine w change next h =
        move_pods-Fine _ _ _ (on update) online change.to_online _ (set_gates-Fine update "True") (
          move_pods-Fine _ _ _ (off update) cutoff change.to_cutoff _
            (set_gates-Fine update "False")
            (move_pods-Fine _ _ _ _ standby change.to_standby _ (λ ps. tt)
              (select_to_delete-Fine order error_text workloads update rp original w
                change.to_delete next h)))

    change_states-Fine :
        (running : ByState (List Pod)) (w : Workload) (sorter : Sorter) (next : Code Outcome)
        → Fine next
        → Fine (change_states order error_text workloads update rp original running w sorter next)
    unfolding change_states
    change_states-Fine running w sorter next h =
        on_go-Fine t a (get_pod_traffic_controller rp.spec.behavior.pod_traffic_controller) _ _
          (failing _ _ _)
          (λ _.
            on_go-Fine t a
              (calculate_state_change order sorter
                (new_state_manager (desired_by_state order error_text workloads update rp) running))
              _ _ (failing _ _ _)
              (λ (change : StateChange × StateManager). apply_change-Fine w change.0 next h))

    with_workload-Fine :
        (running : ByState (List Pod)) (w : Workload) (next : Code Outcome)
        → Fine next
        → Fine (with_workload order error_text workloads update rp original running w next)
    unfolding with_workload
    with_workload-Fine running w next h =
        if-Fine t a (is_default rp.spec.behavior.pod_sorter) _ _
          (λ e. change_states-Fine running w w.sorter next h)
          (λ e.
            if-Fine t a (not w.can_select_pods_to_scale_down) _ _
              (λ d.
                and_then t a
                  (error_out rp original "Applied" "PodSorterNotSupportedByWorkload"
                    "the target workload does not support non default pod sorter")
                  _ (error_out-Fine t a rp original _ _ _) (λ u. tt))
              (λ d.
                on_go-Fine t a (get_pod_sorter rp.spec.behavior.pod_sorter) _ _ (failing _ _ _)
                  (λ sorter. change_states-Fine running w sorter next h)))

    pub run_state_change-Fine :
        (running : ByState (List Pod)) (next : Code Outcome)
        → Fine next
        → Fine (run_state_change order error_text workloads update rp original running next)
    unfolding run_state_change
    run_state_change-Fine running next h =
        on_go-Fine t a (get_workload workloads rp.spec.scale_target_ref) _ _ (failing _ _ _)
          (λ w. with_workload-Fine running w next h)
