-- ===== src/Profile/Loop/Scaling.antt =====
-- An active ReplicaProfile in Reconcile, on the spec, the scale and the pods that it is told.
use kapacity.Common.{
  if◌then◌else◌, false, String, List, Go, ok, err, panic, Error, ◌≡◌, sym, subst, ◌∙◌,
}
use kapacity.Common.Range.{MapRange}
use kapacity.Common.Prog.{on_go, done, Safe, Safe->>=, if-Safe}
use kapacity.Util.Finalizer.{Finalizers}
use kapacity.Util.Selector.{Selector, parse_scale_selector}
use kapacity.Pod.Data.{Pod}
use kapacity.Pod.State.{filter_and_classify_by_running_state}
use kapacity.Scale.{Scale, GroupResource}
use kapacity.Api.Meta.{NamespacedName}
use kapacity.Api.ReplicaProfile.{ReplicaProfile, ReplicaProfileSpec, ReplicaProfileStatus}
use kapacity.Profile.Desired.{is_ensured}
use kapacity.Profile.Calls.{Code, update_rp_status, get_scale, list_pods}
use kapacity.Profile.Traffic.{UpdateCondition}
use kapacity.Profile.Change.{
  finished, failed, set_replica_profile_condition, update_status_if_needed, status_eq, Workloads,
  fail_with,
}
use kapacity.Profile.Loop.{
  reconcile_active, with_scale, with_selector, with_pods, enforce, reflect_status,
  ensured_condition,
}
use kapacity.Profile.Loop.Reports.{if-Fine, on_go-Fine}
use kapacity.Profile.Loop.Careful.{
  care, reports, Tells, IsSaved, is_ensured-met, reflect_status-IsSaved, running,
}
use kapacity.Profile.Loop.Enforced.{failing, enforce-Fine}

module _ (s : ReplicaProfileSpec) (z : Scale) (ps : List Pod) where
  abbrev Fine : {A : Type 0} → Code A → Type 0
  Fine m = Safe (care s z ps) (λ r. Unit) m

  abbrev pub HasSpec : Go ReplicaProfile → Type 0
  HasSpec (ok o) = o.spec ≡ s
  HasSpec _ = Unit

  abbrev IsSavedIn : Go ReplicaProfile → Type 0
  IsSavedIn (ok o) = IsSaved s z ps o
  IsSavedIn _ = Unit

  set_condition-Safe :
      (rp : ReplicaProfile) (type status reason message : String)
      → IsSaved s z ps rp
      → Safe
          (care s z ps)
          (IsSaved s z ps)
          (set_replica_profile_condition rp type status reason message)
  unfolding set_replica_profile_condition
  set_condition-Safe rp type status reason message h = (tt, λ r u. h)

  ensured_condition-Safe :
      (rp : ReplicaProfile)
      → IsSaved s z ps rp
      → Safe (care s z ps) (IsSaved s z ps) (ensured_condition rp)
  ensured_condition-Safe rp h =
      if-Safe (care s z ps) (IsSaved s z ps) (is_ensured rp) _ _
        (λ e. set_condition-Safe rp _ _ _ _ h) (λ e. set_condition-Safe rp _ _ _ _ h)

  update_status-Safe :
      (rp : ReplicaProfile) (original : ReplicaProfileStatus)
      → IsSaved s z ps rp
      → Safe (care s z ps) IsSavedIn (update_status_if_needed rp original)
  unfolding update_status_if_needed
  update_status-Safe rp original h =
      if-Safe (care s z ps) IsSavedIn (status_eq.beq original rp.status) _ _ (λ e. h)
        (λ e. (tt, answered))
    where
      answered : (r : Go ReplicaProfile) → Tells s z ps (update_rp_status rp) r → IsSavedIn r
      answered (ok q) k = (k.0 ∙ h.0, k.1 ∙ h.1)
      answered (err d) k = tt
      answered panic k = tt

  module _ (fin : Finalizers) (parse : String → Go Selector) (order : MapRange)
      (error_text : Error → String) (workloads : Workloads) (update : UpdateCondition) where
    with_pods-Fine :
        (rp : ReplicaProfile) (target : GroupResource)
        → rp.spec ≡ s
        → s.paused ≡ false
        → Fine (
            with_pods fin parse order error_text workloads update rp rp.status z target
              (filter_and_classify_by_running_state ps))
    unfolding with_pods
    with_pods-Fine rp target e active =
        Safe->>= (care s z ps) (IsSaved s z ps) (λ r. Unit)
          (ensured_condition (reflect_status (running s z ps) rp)) _
          (ensured_condition-Safe _ (reflect_status-IsSaved s z ps rp e))
          (λ marked k.
            Safe->>= (care s z ps) IsSavedIn (λ r. Unit) (update_status_if_needed marked rp.status)
              _ (update_status-Safe marked rp.status k) acted)
      where
        acted :
            (r : Go ReplicaProfile)
            → IsSavedIn r
            → Fine (
                on_go r
                  (λ d. done (failed d))
                  (λ saved.
                    if is_ensured (reflect_status (running s z ps) rp)
                    then done finished
                    else enforce fin parse order error_text workloads update saved saved.status z
                        target
                        (running s z ps)
                        (filter_and_classify_by_running_state ps).1))
        acted (ok saved) k =
            if-Fine (care s z ps) (reports s z ps) (is_ensured (reflect_status (running s z ps) rp))
              _ _ (λ b. tt)
              (λ b.
                enforce-Fine s z ps fin parse order error_text workloads update saved saved.status
                  target k (active, sym (is_ensured-met s z ps rp e) ∙ b))
        acted (err d) k = tt
        acted panic k = tt

    with_selector-Fine :
        (request : NamespacedName) (rp : ReplicaProfile) (target : GroupResource)
        → (selector : Selector) → rp.spec ≡ s
        → s.paused ≡ false
        → Fine
            (with_selector fin parse order error_text workloads update request rp z target selector)
    unfolding with_selector
    with_selector-Fine request rp target selector e active = (tt, λ r u. (tt, listed))
      where
        listed :
            (r : Go (List Pod))
            → Tells s z ps (list_pods rp.meta.namespace selector) r
            → Fine (
                on_go r
                  (fail_with order error_text workloads update rp rp.status "Ensured"
                    "FailedListPods" "failed to list the target's Pods")
                  (λ pods.
                    with_pods fin parse order error_text workloads update rp rp.status z target
                      (filter_and_classify_by_running_state pods)))
        listed (ok found) k =
            subst
              (λ l. Fine (
                with_pods fin parse order error_text workloads update rp rp.status z target
                  (filter_and_classify_by_running_state l)))
              (sym k) (with_pods-Fine rp target e active)
        listed (err d) k =
            failing s z ps fin parse order error_text workloads update rp rp.status _ _ _ d
        listed panic k = tt

    with_scale-Fine :
        (request : NamespacedName) (rp : ReplicaProfile) (target : GroupResource)
        → rp.spec ≡ s
        → s.paused ≡ false
        → Fine (with_scale fin parse order error_text workloads update request rp (z, target))
    unfolding with_scale
    with_scale-Fine request rp target e active =
        on_go-Fine (care s z ps) (reports s z ps) (parse_scale_selector parse z.selector) _ _
          (failing s z ps fin parse order error_text workloads update rp rp.status _ _ _)
          (λ selector. with_selector-Fine request rp target selector e active)

    pub reconcile_active-Fine :
        (request : NamespacedName) (rp : ReplicaProfile)
        → rp.spec ≡ s
        → s.paused ≡ false
        → Fine (reconcile_active fin parse order error_text workloads update request rp)
    unfolding reconcile_active
    reconcile_active-Fine request rp e active = (tt, found)
      where
        found :
            (r : Go (Scale × GroupResource))
            → Tells s z ps (get_scale rp.meta.namespace rp.spec.scale_target_ref) r
            → Fine (
                on_go r
                  (fail_with order error_text workloads update rp rp.status "Ensured"
                    "FailedGetScale" "failed to get the target's current scale")
                  (with_scale fin parse order error_text workloads update request rp))
        found (ok r) k =
            subst
              (λ x.
                Fine (with_scale fin parse order error_text workloads update request rp (x, r.1)))
              (sym k) (with_scale-Fine request rp r.1 e active)
        found (err d) k =
            failing s z ps fin parse order error_text workloads update rp rp.status _ _ _ d
        found panic k = tt
