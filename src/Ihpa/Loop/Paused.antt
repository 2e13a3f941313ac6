-- ===== src/Ihpa/Loop/Paused.antt =====
-- Reconcile of the IHPA controller on an object that is paused.
use kapacity.Common.{
  true, false, String, List, Option, none, some, Bool-cases, inl, inr, Go, ok, err, panic, Error,
  ◌≡◌, subst, refl, ◌∙◌,
}
use kapacity.Common.Int.{pos}
use kapacity.Common.Range.{MapRange}
use kapacity.Common.Time.{is_zero_ptr}
use kapacity.Common.Prog.{on_go, done, Contract, Safe, Safe->>=, on_found-Safe, failed}
use kapacity.Util.Finalizer.{Finalizers}
use kapacity.Api.Meta.{NamespacedName}
use kapacity.Api.ReplicaProfile.{ReplicaProfile}
use kapacity.Api.Ihpa.{Ihpa, IhpaStatus}
use kapacity.Ihpa.Calls.{
  Call, Reply, Code, Providers, get_ihpa, patch_ihpa, update_ihpa_status, get_rp, patch_rp, event,
  clock,
}
use kapacity.Ihpa.Reconcile.{get_replica_profile}
use kapacity.Ihpa.Loop.Reports.{
  AllowsReports, and_then, if-Fine, on_go-Fine, finish-Fine, get_replica_profile-Fine,
  fail_with-Fine,
}
use kapacity.Ihpa.Loop.{
  reconcile, reconcile_found, reconcile_live, reconcile_paused, pause_profile, paused_profile,
  ensure_finalizer,
}

-- What is relied on: the object that is read is paused and not being deleted, and a patch of the
-- metadata is answered with an object that is paused as the one sent.
abbrev pub StaysPaused : (c : Call) → Reply c → Type 0
StaysPaused (get_ihpa n) (ok o) =
    (is_zero_ptr o.meta.deletion_timestamp ≡ true) × (o.spec.paused ≡ true)
StaysPaused (patch_ihpa o p) (ok q) = q.spec.paused ≡ p.spec.paused
StaysPaused _ _ = Unit

-- The calls of a pause: the ReplicaProfile is read, and changed only from running to paused.
abbrev pub Pauses : Call → Type 0
Pauses (get_ihpa n) = Unit
Pauses (patch_ihpa o p) = p.spec ≡ o.spec
Pauses (update_ihpa_status o) = Unit
Pauses (get_rp n) = Unit
Pauses (patch_rp o p) = (o.spec.paused ≡ false) × (p ≡ paused_profile o)
Pauses (event t r) = Unit
Pauses clock = Unit
Pauses _ = ⊥

abbrev pub pausing : Contract Call Reply
pausing = record { relies = StaysPaused; allows = Pauses; panics = Unit }

-- The result of adding the finalizer.
abbrev KeepsPaused : Go Ihpa → Type 0
KeepsPaused (ok o) = o.spec.paused ≡ true
KeepsPaused _ = Unit

abbrev Fine : {A : Type 0} → Code A → Type 0
Fine m = Safe pausing (λ r. Unit) m

reports : AllowsReports pausing
reports = record {
  panicking = tt;
  timed = tt;
  evented = λ type reason. tt;
  updated = λ o. tt;
  read = λ n. tt;
}

module _ (fin : Finalizers) (split : String → List String) (order : MapRange)
    (error_text : Error → String) (providers : Providers) where
  pause_profile-Fine :
      (ihpa : Ihpa) (original : IhpaStatus) (rp : Option ReplicaProfile)
      → Fine (pause_profile fin split order error_text providers ihpa original rp)
  unfolding pause_profile
  pause_profile-Fine ihpa original none =
      finish-Fine pausing reports ihpa original "False" "ScalingPaused" "scaling is paused" (pos 0)
  pause_profile-Fine ihpa original (some rp) =
      if-Fine pausing reports rp.spec.paused _ _
        (λ e.
          finish-Fine pausing reports ihpa original "False" "ScalingPaused" "scaling is paused"
            (pos 0))
        (λ e. (
          (e, refl),
          λ r h.
              on_go-Fine pausing reports r _ _
                (fail_with-Fine pausing reports fin split order error_text providers ihpa original
                  "FailedUpdateReplicaProfile" "failed to patch ReplicaProfile")
                (λ o.
                  finish-Fine pausing reports ihpa original "False" "ScalingPaused"
                    "scaling is paused" (pos 0)),
        ))

  paused-Fine :
      (ihpa : Ihpa) (original : IhpaStatus)
      → Fine (reconcile_paused fin split order error_text providers ihpa original)
  unfolding reconcile_paused
  paused-Fine ihpa original =
      and_then pausing reports (get_replica_profile ihpa) _
        (get_replica_profile-Fine pausing reports ihpa)
        (λ rp.
          on_go-Fine pausing reports rp _ _
            (fail_with-Fine pausing reports fin split order error_text providers ihpa original
              "FailedGetReplicaProfile" "failed to get ReplicaProfile")
            (pause_profile-Fine ihpa original))

  live-Fine :
      (ihpa : Ihpa)
      → ihpa.spec.paused ≡ true
      → Fine (reconcile_live fin split order error_text providers ihpa)
  unfolding reconcile_live
  live-Fine ihpa e =
      if-Fine pausing reports ihpa.spec.paused _ _ (λ _. paused-Fine ihpa ihpa.status) (λ f. cc)

  ensure_finalizer-Safe :
      (ihpa : Ihpa)
      → ihpa.spec.paused ≡ true
      → Safe pausing KeepsPaused (ensure_finalizer fin split order error_text providers ihpa)
  unfolding ensure_finalizer
  ensure_finalizer-Safe ihpa e = elim (Bool-cases (fin.contains ihpa.meta)) [
    | inl c ↦ rw c e
    | inr c ↦ rw c (refl, replied)
  ]
    where
      replied :
          (r : Go Ihpa)
          → StaysPaused (patch_ihpa ihpa (record ihpa { meta = fin.add ihpa.meta })) r
          → KeepsPaused r
      replied (ok o) h = h ∙ e
      replied (err d) h = tt
      replied panic h = tt

  found-Fine :
      (request : NamespacedName) (ihpa : Ihpa)
      → is_zero_ptr ihpa.meta.deletion_timestamp ≡ true
      → ihpa.spec.paused ≡ true
      → Fine (reconcile_found fin split order error_text providers request ihpa)
  unfolding reconcile_found
  found-Fine request ihpa live e =
      if-Fine pausing reports (is_zero_ptr ihpa.meta.deletion_timestamp) _ _
        (λ _.
          Safe->>= pausing KeepsPaused (λ r. Unit)
            (ensure_finalizer fin split order error_text providers ihpa)
            (λ ensured.
              on_go ensured (λ d. done (failed d))
                (reconcile_live fin split order error_text providers))
            (ensure_finalizer-Safe ihpa e) ensured)
        (λ dead. cc)
    where
      ensured :
          (r : Go Ihpa)
          → KeepsPaused r
          → Fine
              (on_go r (λ d. done (failed d)) (reconcile_live fin split order error_text providers))
      ensured (ok o) h = live-Fine o h
      ensured (err d) h = tt
      ensured panic h = tt

  -- While an object that is not being deleted is paused, and stays so when its finalizer is added, its
  -- reconciliation calls no portrait provider, creates and deletes no ReplicaProfile, and the only change that it makes to
  -- one is that it pauses a ReplicaProfile which is running. It never changes the object's spec.
  pub reconcile-Pauses :
      (request : NamespacedName)
      → Safe pausing (λ r. Unit) (reconcile fin split order error_text providers request)
  unfolding reconcile
  reconcile-Pauses request = (
    tt,
    λ r h.
        on_found-Safe pausing (λ r. Unit) r _ _ _ (λ e. tt) (λ e d. tt)
          (λ o e.
            let kept = subst (StaysPaused (get_ihpa request)) e h in
            found-Fine request o kept.0 kept.1)
          (λ e. tt),
  )
