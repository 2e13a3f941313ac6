-- ===== src/Profile/Loop/Reports.antt =====
-- The parts of Reconcile of the ReplicaProfile controller that only report, under any contract that
-- allows this.
use Prim.Native.String.{◌++◌}
use kapacity.Common.{
  Bool, true, false, String, Bool-cases, inl, inr, Go, Error, ◌≡◌, if◌then◌else◌, List,
}
use kapacity.Common.Range.{MapRange}
use kapacity.Common.Prog.{on_go, Contract, Safe, Safe->>=, if-Safe, on_go-Safe, ◌>>=◌}
use kapacity.Api.ReplicaProfile.{ReplicaProfile, ReplicaProfileStatus}
use kapacity.Profile.Calls.{Call, Reply, Code, update_rp_status, event, clock}
use kapacity.Profile.Traffic.{UpdateCondition}
use kapacity.Profile.Change.{
  set_replica_profile_condition, update_status_if_needed, status_eq, error_out, fail_with,
  Workloads,
}

-- The contract says nothing of panics, and allows what every reconciliation does.
pub record AllowsReports (t : Contract Call Reply) : Type 0 where
  pub panicking : t.panics
  pub timed : t.allows clock
  pub evented : (type reason : String) (pods : List String) → t.allows (event type reason pods)
  pub updated : (o : ReplicaProfile) → t.allows (update_rp_status o)

module _ (t : Contract Call Reply) (a : AllowsReports t) where
  open a use {panicking, timed, evented, updated}

  abbrev pub Fine : {A : Type 0} → Code A → Type 0
  Fine m = Safe t (λ r. Unit) m

  pub condition-Fine :
      (rp : ReplicaProfile) (type status reason message : String)
      → Fine (set_replica_profile_condition rp type status reason message)
  unfolding set_replica_profile_condition
  condition-Fine rp type status reason message = (timed, λ r h. tt)

  pub update-Fine :
      (rp : ReplicaProfile) (original : ReplicaProfileStatus)
      → Fine (update_status_if_needed rp original)
  unfolding update_status_if_needed
  update-Fine rp original = elim (Bool-cases (status_eq.beq original rp.status)) [
    | inl e ↦ rw e tt
    | inr e ↦ rw e (updated rp, λ r h. tt)
  ]

  pub and_then :
      {A B : Type 0} (m : Code A) (f : A → Code B)
      → Fine m
      → ((a : A) → Fine (f a))
      → Fine (m >>= f)
  and_then m f h k = Safe->>= t (λ r. Unit) (λ r. Unit) m f h (λ a u. k a)

  pub if-Fine :
      {A : Type 0} (b : Bool) (m n : Code A)
      → (b ≡ true → Fine m)
      → (b ≡ false → Fine n)
      → Fine (if b then m else n)
  if-Fine b m n h k = if-Safe t (λ r. Unit) b m n h k

  pub on_go-Fine :
      {A B : Type 0} (r : Go A) (failure : Error → Code B) (next : A → Code B)
      → ((e : Error) → Fine (failure e))
      → ((a : A) → Fine (next a))
      → Fine (on_go r failure next)
  on_go-Fine r failure next h k =
      on_go-Safe t (λ r. Unit) r failure next (λ e _. h e) (λ a _. k a) (λ _. panicking)

  pub error_out-Fine :
      (rp : ReplicaProfile) (original : ReplicaProfileStatus) (type reason message : String)
      → Fine (error_out rp original type reason message)
  unfolding error_out
  error_out-Fine rp original type reason message = (
    evented "Warning" reason _,
    λ r h.
        and_then (set_replica_profile_condition rp type "False" reason message) _
          (condition-Fine rp type "False" reason message)
          (λ changed.
            and_then (update_status_if_needed changed original) _ (update-Fine changed original)
              (λ updated. on_go-Fine updated _ _ (λ e. tt) (λ o. tt))),
  )

  module _ (order : MapRange) (error_text : Error → String) (workloads : Workloads)
      (update_pod_condition : UpdateCondition) where
    pub fail_with-Fine :
        (rp : ReplicaProfile) (original : ReplicaProfileStatus) (type reason prefix : String)
        → (e : Error)
        → Fine (
            fail_with order error_text workloads update_pod_condition rp original type reason prefix
              e)
    fail_with-Fine rp original type reason prefix e =
        and_then (error_out rp original type reason (prefix ++ ": " ++ error_text e)) _
          (error_out-Fine rp original type reason (prefix ++ ": " ++ error_text e)) (λ u. tt)
