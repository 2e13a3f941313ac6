-- ===== src/Profile/Loop/Enforced.antt =====
-- The part of Reconcile of the ReplicaProfile controller that moves pods and scales the target.
use kapacity.Common.{Bool, true, false, ◌&&◌, ◌||◌, not, String, List, Go, Error, ◌≡◌, subst, ap}
use kapacity.Common.Int.{pos, eqb_ℤ}
use kapacity.Common.Range.{MapRange}
use kapacity.Common.Prog.{on_go, done, Safe}
use kapacity.Util.Finalizer.{Finalizers}
use kapacity.Util.Selector.{Selector}
use kapacity.Pod.Data.{Pod}
use kapacity.Pod.State.{filter_and_classify_by_running_state}
use kapacity.Scale.{Scale, GroupResource}
use kapacity.Api.ReplicaProfile.{ReplicaProfile, ReplicaProfileSpec, ReplicaProfileStatus}
use kapacity.Profile.Desired.{need_state_change, desired_replicas}
use kapacity.Profile.Calls.{Code}
use kapacity.Profile.Traffic.{UpdateCondition}
use kapacity.Profile.Change.{finished, failed, update_status_if_needed, Workloads, fail_with}
use kapacity.Profile.Loop.{enforce, rescale, conclude, save, applied_condition}
use kapacity.Profile.Loop.Reports.{
  and_then, if-Fine, on_go-Fine, condition-Fine, update-Fine, fail_with-Fine,
}
use kapacity.Profile.Loop.Careful.{
  care, reports, moves, Acts, IsSaved, desired_replicas-wanted, running,
}
use kapacity.Profile.Loop.Moving.{run_state_change-Fine}

module _ (s : ReplicaProfileSpec) (z : Scale) (ps : List Pod) where
  abbrev pub Fine : {A : Type 0} → Code A → Type 0
  Fine m = Safe (care s z ps) (λ r. Unit) m

  pub ended : (r : Go ReplicaProfile) → Fine (on_go r (λ e. done (failed e)) (λ _. done finished))
  ended r = on_go-Fine (care s z ps) (reports s z ps) r _ _ (λ e. tt) (λ o. tt)

  second : (b c : Bool) → (b && c) ≡ true → c ≡ true
  second true c e = e
  second false c e = cc

  applied_condition-Fine : (b : Bool) (rp : ReplicaProfile) → Fine (applied_condition b rp)
  applied_condition-Fine true rp = condition-Fine (care s z ps) (reports s z ps) rp _ _ _ _
  applied_condition-Fine false rp = condition-Fine (care s z ps) (reports s z ps) rp _ _ _ _

  module _ (fin : Finalizers) (parse : String → Go Selector) (order : MapRange)
      (error_text : Error → String) (workloads : Workloads) (update : UpdateCondition) where
    pub failing :
        (rp : ReplicaProfile) (original : ReplicaProfileStatus) (type reason prefix : String)
        → (e : Error)
        → Fine (fail_with order error_text workloads update rp original type reason prefix e)
    failing = fail_with-Fine (care s z ps) (reports s z ps) order error_text workloads update

    pub save-Fine :
        (rp : ReplicaProfile) (original : ReplicaProfileStatus)
        → Fine (save fin parse order error_text workloads update rp original)
    save-Fine rp original =
        and_then (care s z ps) (reports s z ps) (update_status_if_needed rp original) _
          (update-Fine (care s z ps) (reports s z ps) rp original) ended

    conclude-Fine :
        (rp : ReplicaProfile) (original : ReplicaProfileStatus) (can : Bool)
        → Fine (conclude fin parse order error_text workloads update rp original can)
    conclude-Fine rp original can =
        and_then (care s z ps) (reports s z ps)
          (applied_condition (not (need_state_change rp) || can) rp) _
          (applied_condition-Fine (not (need_state_change rp) || can) rp)
          (λ applied. save-Fine applied original)

    rescale-Fine :
        (rp : ReplicaProfile) (original : ReplicaProfileStatus) (target : GroupResource)
        → (can : Bool) → IsSaved s z ps rp
        → Acts s z ps
        → Fine (rescale fin parse order error_text workloads update rp original z target can)
    unfolding rescale
    rescale-Fine rp original target can h acts =
        let wants = desired_replicas-wanted s z ps rp h in
        if-Fine (care s z ps) (reports s z ps) (eqb_ℤ (desired_replicas rp) z.replicas) _ _
          (λ e. conclude-Fine rp original can)
          (λ e. (
            tt,
            λ r u. (
              (
                acts,
                ap (λ n. record z { replicas = n }) wants,
                subst (λ n. eqb_ℤ n z.replicas ≡ false) wants e,
              ),
              λ q v.
                  on_go-Fine (care s z ps) (reports s z ps) q _ _ (failing rp original _ _ _)
                    (λ _. conclude-Fine rp original can),
            ),
          ))

    pub enforce-Fine :
        (rp : ReplicaProfile) (original : ReplicaProfileStatus) (target : GroupResource)
        → IsSaved s z ps rp
        → Acts s z ps
        → Fine (
            enforce fin parse order error_text workloads update rp original z target
              (running s z ps)
              (filter_and_classify_by_running_state ps).1)
    unfolding enforce
    enforce-Fine rp original target h acts =
        let can = eqb_ℤ (pos (filter_and_classify_by_running_state ps).1) z.replicas in
        let scaled = rescale-Fine rp original target can h acts in
        if-Fine (care s z ps) (reports s z ps) (need_state_change rp && can) _ _
          (λ e.
            run_state_change-Fine (care s z ps) (reports s z ps)
              (moves s z ps acts (second (need_state_change rp) can e)) order error_text workloads
              update rp original (running s z ps) _ scaled)
          (λ e. scaled)
