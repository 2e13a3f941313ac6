-- ===== src/Ihpa/Loop/Reports.antt =====
-- The parts of Reconcile of the IHPA controller that only read, report and keep time, under any
-- contract that allows this.
use Prim.Native.String.{◌++◌}
use kapacity.Common.{
  Bool, true, false, String, List, Bool-cases, inl, inr, Go, Error, ◌≡◌, if◌then◌else◌,
}
use kapacity.Common.Int.{ℤ}
use kapacity.Common.Range.{MapRange}
use kapacity.Common.Prog.{
  on_go, Contract, Safe, Safe->>=, if-Safe, on_go-Safe, on_found-Safe, ◌>>=◌,
}
use kapacity.Util.Finalizer.{Finalizers}
use kapacity.Api.Meta.{NamespacedName}
use kapacity.Api.Ihpa.{Ihpa, IhpaStatus}
use kapacity.Ihpa.Calls.{Call, Reply, Code, Providers, update_ihpa_status, get_rp, event, clock}
use kapacity.Ihpa.Reconcile.{
  get_replica_profile, set_ihpa_condition, update_status_if_needed, status_eq, error_out, finish,
}
use kapacity.Ihpa.Loop.{fail_with}

-- The contract says nothing of panics, and allows what every reconciliation does.
pub record AllowsReports (t : Contract Call Reply) : Type 0 where
  pub panicking : t.panics
  pub timed : t.allows clock
  pub evented : (type reason : String) → t.allows (event type reason)
  pub updated : (o : Ihpa) → t.allows (update_ihpa_status o)
  pub read : (n : NamespacedName) → t.allows (get_rp n)

module _ (t : Contract Call Reply) (a : AllowsReports t) where
  open a use {panicking, timed, evented, updated, read}

  abbrev pub Fine : {A : Type 0} → Code A → Type 0
  Fine m = Safe t (λ r. Unit) m

  pub condition-Fine :
      (ihpa : Ihpa) (type status reason message : String)
      → Fine (set_ihpa_condition ihpa type status reason message)
  unfolding set_ihpa_condition
  condition-Fine ihpa type status reason message = (timed, λ r h. tt)

  pub update-Fine :
      (ihpa : Ihpa) (original : IhpaStatus) → Fine (update_status_if_needed ihpa original)
  unfolding update_status_if_needed
  update-Fine ihpa original = elim (Bool-cases (status_eq.beq original ihpa.status)) [
    | inl e ↦ rw e tt
    | inr e ↦ rw e (updated ihpa, λ r h. tt)
  ]

  pub and_then :
      {A B : Type 0} (m : Code A) (f : A → Code B)
      → Fine m
      → ((a : A) → Fine (f a))
      → Fine (m >>= f)
  and_then m f h k = Safe->>= t (λ r. Unit) (λ r. Unit) m f h (λ a u. k a)

  pub if-Fine :
      {A : Type 0} (b : Bool) (m n : Code A)
      → (b ≡ true → Fine m)
      → (b ≡ false → Fine n)
      → Fine (if b then m else n)
  if-Fine b m n h k = if-Safe t (λ r. Unit) b m n h k

  pub on_go-Fine :
      {A B : Type 0} (r : Go A) (failure : Error → Code B) (next : A → Code B)
      → ((e : Error) → Fine (failure e))
      → ((a : A) → Fine (next a))
      → Fine (on_go r failure next)
  on_go-Fine r failure next h k =
      on_go-Safe t (λ r. Unit) r failure next (λ e _. h e) (λ a _. k a) (λ _. panicking)

  pub finish-Fine :
      (ihpa : Ihpa) (original : IhpaStatus) (status reason message : String) (delay : ℤ)
      → Fine (finish ihpa original status reason message delay)
  unfolding finish
  finish-Fine ihpa original status reason message delay =
      and_then (set_ihpa_condition ihpa "ScalingActive" status reason message) _
        (condition-Fine ihpa "ScalingActive" status reason message)
        (λ changed.
          and_then (update_status_if_needed changed original) _ (update-Fine changed original)
            (λ updated. on_go-Fine updated _ _ (λ e. tt) (λ o. tt)))

  pub error_out-Fine :
      (ihpa : Ihpa) (original : IhpaStatus) (reason message : String)
      → Fine (error_out ihpa original reason message)
  unfolding error_out
  error_out-Fine ihpa original reason message = (
    evented "Warning" reason,
    λ r h.
        and_then (set_ihpa_condition ihpa "ScalingActive" "False" reason message) _
          (condition-Fine ihpa "ScalingActive" "False" reason message)
          (λ changed.
            and_then (update_status_if_needed changed original) _ (update-Fine changed original)
              (λ updated. on_go-Fine updated _ _ (λ e. tt) (λ o. tt))),
  )

  pub get_replica_profile-Fine : (ihpa : Ihpa) → Fine (get_replica_profile ihpa)
  get_replica_profile-Fine ihpa = (
    read _,
    λ r h. on_found-Safe t (λ r. Unit) r _ _ _ (λ e. tt) (λ e d. tt) (λ o e. tt) (λ e. panicking),
  )

  module _ (fin : Finalizers) (split : String → List String) (order : MapRange)
      (error_text : Error → String) (providers : Providers) where
    pub fail_with-Fine :
        (ihpa : Ihpa) (original : IhpaStatus) (reason prefix : String) (e : Error)
        → Fine (fail_with fin split order error_text providers ihpa original reason prefix e)
    fail_with-Fine ihpa original reason prefix e =
        and_then (error_out ihpa original reason (prefix ++ ": " ++ error_text e)) _
          (error_out-Fine ihpa original reason (prefix ++ ": " ++ error_text e)) (λ u. tt)
