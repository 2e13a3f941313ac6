-- ===== src/Profile/Loop/Measured.antt =====
-- Reconcile of the ReplicaProfile controller from the request on, with the spec, the scale and the
-- pods that it is told.
use kapacity.Common.{String, List, Go, ok, err, panic, Error, ◌≡◌, refl, sym, subst, ◌∙◌, ap}
use kapacity.Common.Range.{MapRange}
use kapacity.Common.Time.{is_zero_ptr}
use kapacity.Common.Prog.{on_go, done, Safe, Safe->>=, if-Safe, on_found-Safe}
use kapacity.Util.Finalizer.{Finalizers}
use kapacity.Util.Selector.{Selector}
use kapacity.Pod.Data.{Pod}
use kapacity.Scale.{Scale}
use kapacity.Api.Meta.{NamespacedName}
use kapacity.Api.ReplicaProfile.{ReplicaProfile, ReplicaProfileSpec}
use kapacity.Profile.Calls.{Code, get_rp, patch_rp}
use kapacity.Profile.Traffic.{UpdateCondition}
use kapacity.Profile.Change.{failed, set_replica_profile_condition, Workloads}
use kapacity.Profile.Loop.{
  reconcile, reconcile_found, reconcile_live, reconcile_paused, reconcile_deleted, ensure_finalizer,
  remove_finalizer,
}
use kapacity.Profile.Loop.Reports.{and_then, if-Fine, condition-Fine}
use kapacity.Profile.Loop.Careful.{care, reports, Tells}
use kapacity.Profile.Loop.Enforced.{ended, save-Fine}
use kapacity.Profile.Loop.Scaling.{HasSpec, reconcile_active-Fine}

module _ (s : ReplicaProfileSpec) (z : Scale) (ps : List Pod) where
  abbrev Fine : {A : Type 0} → Code A → Type 0
  Fine m = Safe (care s z ps) (λ r. Unit) m

  module _ (fin : Finalizers) (parse : String → Go Selector) (order : MapRange)
      (error_text : Error → String) (workloads : Workloads) (update : UpdateCondition) where
    paused-Fine :
        (rp : ReplicaProfile)
        → Fine (reconcile_paused fin parse order error_text workloads update rp)
    unfolding reconcile_paused
    paused-Fine rp =
        and_then (care s z ps) (reports s z ps)
          (set_replica_profile_condition rp "Applied" "False" "ReplicaProfilePaused"
            "the replica profile is paused")
          _ (condition-Fine (care s z ps) (reports s z ps) rp _ _ _ _)
          (λ once.
            and_then (care s z ps) (reports s z ps)
              (set_replica_profile_condition once "Ensured" "False" "ReplicaProfilePaused"
                "the replica profile is paused")
              _ (condition-Fine (care s z ps) (reports s z ps) once _ _ _ _)
              (λ twice.
                save-Fine s z ps fin parse order error_text workloads update twice rp.status))

    live-Fine :
        (request : NamespacedName) (rp : ReplicaProfile)
        → rp.spec ≡ s
        → Fine (reconcile_live fin parse order error_text workloads update request rp)
    unfolding reconcile_live
    live-Fine request rp e =
        if-Fine (care s z ps) (reports s z ps) rp.spec.paused _ _ (λ b. paused-Fine rp)
          (λ b.
            reconcile_active-Fine s z ps fin parse order error_text workloads update request rp e
              (sym (ap (λ x. x.paused) e) ∙ b))

    ensure_finalizer-Safe :
        (rp : ReplicaProfile)
        → rp.spec ≡ s
        → Safe
            (care s z ps)
            (HasSpec s z ps)
            (ensure_finalizer fin parse order error_text workloads update rp)
    unfolding ensure_finalizer
    ensure_finalizer-Safe rp e =
        if-Safe (care s z ps) (HasSpec s z ps) (fin.contains rp.meta) _ _ (λ c. e)
          (λ c. (refl, replied))
      where
        replied :
            (r : Go ReplicaProfile)
            → Tells s z ps (patch_rp rp (record rp { meta = fin.add rp.meta })) r
            → HasSpec s z ps r
        replied (ok o) h = h ∙ e
        replied (err d) h = tt
        replied panic h = tt

    remove_finalizer-Fine :
        (rp : ReplicaProfile)
        → Fine (remove_finalizer fin parse order error_text workloads update rp)
    unfolding remove_finalizer
    remove_finalizer-Fine rp =
        if-Safe (care s z ps) (λ r. Unit) (fin.contains rp.meta) _ _ (λ c. (refl, λ r h. tt))
          (λ c. tt)

    deleted-Fine :
        (request : NamespacedName) (rp : ReplicaProfile)
        → Fine (reconcile_deleted fin parse order error_text workloads update request rp)
    unfolding reconcile_deleted
    deleted-Fine request rp =
        if-Fine (care s z ps) (reports s z ps) (fin.contains rp.meta) _ _
          (λ c. (
            tt,
            λ r h.
                and_then (care s z ps) (reports s z ps)
                  (remove_finalizer fin parse order error_text workloads update rp) _
                  (remove_finalizer-Fine rp) (ended s z ps),
          ))
          (λ c. tt)

    found-Fine :
        (request : NamespacedName) (rp : ReplicaProfile)
        → rp.spec ≡ s
        → Fine (reconcile_found fin parse order error_text workloads update request rp)
    unfolding reconcile_found
    found-Fine request rp e =
        if-Fine (care s z ps) (reports s z ps) (is_zero_ptr rp.meta.deletion_timestamp) _ _
          (λ live.
            Safe->>= (care s z ps) (HasSpec s z ps) (λ r. Unit)
              (ensure_finalizer fin parse order error_text workloads update rp) _
              (ensure_finalizer-Safe rp e) ensured)
          (λ dead. deleted-Fine request rp)
      where
        ensured :
            (r : Go ReplicaProfile)
            → HasSpec s z ps r
            → Fine (
                on_go r
                  (λ d. done (failed d))
                  (reconcile_live fin parse order error_text workloads update request))
        ensured (ok o) h = live-Fine request o h
        ensured (err d) h = tt
        ensured panic h = tt

    -- For the spec `s`, the scale `z` and the pods `ps` that it reads, whatever fails and wherever it
    -- ends, a reconciliation of a ReplicaProfile changes a pod only while the profile is not paused,
    -- its numbers of running pods are not met, and the running pods are as many as the scale says. It
    -- changes the scale only while the profile is not paused and not met, to the replicas that the
    -- spec asks for with the pods now online, and only if these are others than the scale has. A
    -- patch of the profile leaves its spec as it is. This relies on the API server to answer a write
    -- of the metadata with the spec sent, and one of the status with the spec and the number of
    -- online pods sent.
    pub reconcile-IsCareful :
        (request : NamespacedName)
        → Safe
            (care s z ps)
            (λ r. Unit)
            (reconcile fin parse order error_text workloads update request)
    unfolding reconcile
    reconcile-IsCareful request = (
      tt,
      λ r h.
          on_found-Safe (care s z ps) (λ r. Unit) r _ _ _ (λ e. tt) (λ e d. tt)
            (λ o e. found-Fine request o (subst (Tells s z ps (get_rp request)) e h)) (λ e. tt),
    )
