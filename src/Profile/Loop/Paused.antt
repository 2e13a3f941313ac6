-- ===== src/Profile/Loop/Paused.antt =====
-- Reconcile of the ReplicaProfile controller on an object that is paused.
use kapacity.Common.{
  Bool, true, false, String, Bool-cases, inl, inr, Go, ok, err, panic, Error, ◌≡◌, subst, ◌∙◌, refl,
  if◌then◌else◌,
}
use kapacity.Common.Range.{MapRange}
use kapacity.Common.Time.{is_zero_ptr}
use kapacity.Common.Prog.{on_go, done, Contract, Safe, Safe->>=, if-Safe, on_go-Safe, on_found-Safe}
use kapacity.Util.Finalizer.{Finalizers}
use kapacity.Util.Selector.{Selector}
use kapacity.Api.Meta.{NamespacedName}
use kapacity.Api.ReplicaProfile.{ReplicaProfile, ReplicaProfileStatus}
use kapacity.Profile.Calls.{Call, Reply, Code, get_rp, patch_rp, update_rp_status, clock}
use kapacity.Profile.Traffic.{UpdateCondition}
use kapacity.Profile.Change.{
  finished, failed, set_replica_profile_condition, update_status_if_needed, status_eq, Workloads,
}
use kapacity.Profile.Loop.{
  reconcile, reconcile_found, reconcile_live, reconcile_paused, ensure_finalizer,
}

-- What is relied on: the object that is read is paused and not being deleted, and a patch of the
-- metadata is answered with an object that is paused as the one sent.
abbrev pub StaysPaused : (c : Call) → Reply c → Type 0
StaysPaused (get_rp n) (ok o) =
    (is_zero_ptr o.meta.deletion_timestamp ≡ true) × (o.spec.paused ≡ true)
StaysPaused (patch_rp o p) (ok q) = q.spec.paused ≡ p.spec.paused
StaysPaused _ _ = Unit

-- The calls that leave the target alone.
abbrev pub OnlyReports : Call → Type 0
OnlyReports (get_rp n) = Unit
OnlyReports (patch_rp o p) = p.spec ≡ o.spec
OnlyReports (update_rp_status o) = Unit
OnlyReports clock = Unit
OnlyReports _ = ⊥

abbrev pub resting : Contract Call Reply
resting = record { relies = StaysPaused; allows = OnlyReports; panics = Unit }

abbrev Rests : {A : Type 0} → Code A → Type 0
Rests m = Safe resting (λ r. Unit) m

-- The result of adding the finalizer.
abbrev KeepsPaused : Go ReplicaProfile → Type 0
KeepsPaused (ok o) = o.spec.paused ≡ true
KeepsPaused _ = Unit

if-Rests :
    {A : Type 0} (b : Bool) (m n : Code A)
    → (b ≡ true → Rests m)
    → (b ≡ false → Rests n)
    → Rests (if b then m else n)
if-Rests b m n h k = if-Safe resting (λ r. Unit) b m n h k

update-Rests :
    (rp : ReplicaProfile) (original : ReplicaProfileStatus)
    → Rests (update_status_if_needed rp original)
unfolding update_status_if_needed
update-Rests rp original =
    if-Rests (status_eq.beq original rp.status) _ _ (λ e. tt) (λ e. (tt, λ r h. tt))

module _ (fin : Finalizers) (parse : String → Go Selector) (order : MapRange)
    (error_text : Error → String) (workloads : Workloads)
    (update_pod_condition : UpdateCondition) where
  ended : (r : Go ReplicaProfile) → Rests (on_go r (λ e. done (failed e)) (λ _. done finished))
  ended r = on_go-Safe resting (λ r. Unit) r _ _ (λ e _. tt) (λ o _. tt) (λ _. tt)

  paused-Rests :
      (rp : ReplicaProfile)
      → Rests (reconcile_paused fin parse order error_text workloads update_pod_condition rp)
  unfolding reconcile_paused set_replica_profile_condition
  paused-Rests rp = (
    tt,
    λ once h. (
      tt,
      λ twice k.
          Safe->>= resting (λ r. Unit) (λ r. Unit) (update_status_if_needed _ rp.status) _
            (update-Rests _ rp.status) (λ r u. ended r),
    ),
  )

  live-Rests :
      (request : NamespacedName) (rp : ReplicaProfile)
      → rp.spec.paused ≡ true
      → Rests (reconcile_live fin parse order error_text workloads update_pod_condition request rp)
  unfolding reconcile_live
  live-Rests request rp e = if-Rests rp.spec.paused _ _ (λ _. paused-Rests rp) (λ f. cc)

  ensure_finalizer-Safe :
      (rp : ReplicaProfile)
      → rp.spec.paused ≡ true
      → Safe resting KeepsPaused
          (ensure_finalizer fin parse order error_text workloads update_pod_condition rp)
  unfolding ensure_finalizer
  ensure_finalizer-Safe rp e = elim (Bool-cases (fin.contains rp.meta)) [
    | inl c ↦ rw c e
    | inr c ↦ rw c (refl, replied)
  ]
    where
      replied :
          (r : Go ReplicaProfile)
          → StaysPaused (patch_rp rp (record rp { meta = fin.add rp.meta })) r
          → KeepsPaused r
      replied (ok o) h = h ∙ e
      replied (err d) h = tt
      replied panic h = tt

  found-Rests :
      (request : NamespacedName) (rp : ReplicaProfile)
      → is_zero_ptr rp.meta.deletion_timestamp ≡ true
      → rp.spec.paused ≡ true
      → Rests (reconcile_found fin parse order error_text workloads update_pod_condition request rp)
  unfolding reconcile_found
  found-Rests request rp live e =
      if-Rests (is_zero_ptr rp.meta.deletion_timestamp) _ _
        (λ _.
          Safe->>= resting KeepsPaused (λ r. Unit)
            (ensure_finalizer fin parse order error_text workloads update_pod_condition rp) _
            (ensure_finalizer-Safe rp e) ensured)
        (λ dead. cc)
    where
      ensured :
          (r : Go ReplicaProfile)
          → KeepsPaused r
          → Rests (
              on_go r
                (λ d. done (failed d))
                (reconcile_live fin parse order error_text workloads update_pod_condition request))
      ensured (ok o) h = live-Rests request o h
      ensured (err d) h = tt
      ensured panic h = tt

  -- While a ReplicaProfile that is not being deleted is paused, and stays so when its finalizer is
  -- added, its reconciliation reads no pod and no scale, and changes none: it writes the status, and the metadata for the
  -- finalizer, with the spec as it was.
  pub reconcile-OnlyReports :
      (request : NamespacedName)
      → Safe resting
          (λ r. Unit)
          (reconcile fin parse order error_text workloads update_pod_condition request)
  unfolding reconcile
  reconcile-OnlyReports request = (
    tt,
    λ r h.
        on_found-Safe resting (λ r. Unit) r _ _ _ (λ e. tt) (λ e d. tt)
          (λ o e.
            let kept = subst (StaysPaused (get_rp request)) e h in
            found-Rests request o kept.0 kept.1)
          (λ e. tt),
  )
