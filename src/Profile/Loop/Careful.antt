-- ===== src/Profile/Loop/Careful.antt =====
-- What Reconcile of the ReplicaProfile controller changes, as a contract on its calls: when pods are
-- moved, and what the target is scaled to.
use kapacity.Common.{Bool, true, false, ◌&&◌, List, length, ok, ◌≡◌, refl, ◌∙◌, ap}
use kapacity.Common.Int.{ℤ, pos, ◌+ℤ◌, int32, eqb_ℤ}
use kapacity.Common.Prog.{Contract}
use kapacity.Pod.Data.{Pod}
use kapacity.Pod.State.{ByState, filter_and_classify_by_running_state}
use kapacity.Scale.{Scale}
use kapacity.Api.ReplicaProfile.{ReplicaProfile, ReplicaProfileSpec}
use kapacity.Profile.Desired.{
  is_online_replicas_ensured, get_desired_online_replicas, is_ensured, desired_replicas,
}
use kapacity.Profile.Calls.{
  Call, Reply, get_rp, patch_rp, update_rp_status, get_scale, update_scale, list_pods, patch_pod,
  patch_pod_status,
}
use kapacity.Profile.Loop.{reflect_status}
use kapacity.Profile.Loop.Reports.{AllowsReports}
use kapacity.Profile.Loop.Moving.{AllowsMoves}

-- A reconciliation of an object with the spec `s`, that is told the scale `z` and the pods `ps`.
module _ (s : ReplicaProfileSpec) (z : Scale) (ps : List Pod) where
  abbrev pub running : ByState (List Pod)
  running = (filter_and_classify_by_running_state ps).0

  abbrev pub seen : List Pod → ℤ
  seen pods = int32 (pos (length pods))

  -- The numbers of running pods are those of the spec.
  abbrev pub is_met : ReplicaProfileSpec → Bool
  is_met spec =
      is_online_replicas_ensured spec.allowed_scaling_direction spec.online_replicas
        (seen running.of_online)
      && (eqb_ℤ (seen running.of_cutoff) spec.cutoff_replicas
          && eqb_ℤ (seen running.of_standby) spec.standby_replicas)

  -- The replicas that the spec asks for, when `online` pods are online.
  abbrev pub wanted : (online : ℤ) → ReplicaProfileSpec → ℤ
  wanted online spec = int32 (
      int32 (
        get_desired_online_replicas spec.allowed_scaling_direction spec.online_replicas online
        +ℤ spec.cutoff_replicas)
      +ℤ spec.standby_replicas)

  -- What is relied on: the object has the spec, and a write is answered with the spec sent, and with
  -- the number of online pods sent.
  abbrev pub Tells : (c : Call) → Reply c → Type 0
  Tells (get_rp n) (ok o) = o.spec ≡ s
  Tells (patch_rp o p) (ok q) = q.spec ≡ p.spec
  Tells (update_rp_status o) (ok q) =
      (q.spec ≡ o.spec) × (q.status.online_replicas ≡ o.status.online_replicas)
  Tells (get_scale n t) (ok r) = r.0 ≡ z
  Tells (list_pods n l) (ok found) = found ≡ ps
  Tells _ _ = Unit

  abbrev pub Acts : Type 0
  Acts = (s.paused ≡ false) × (is_met s ≡ false)

  abbrev pub Counted : Type 0
  Counted = eqb_ℤ (pos (filter_and_classify_by_running_state ps).1) z.replicas ≡ true

  -- Pods are changed, and the target is scaled, under these conditions only.
  abbrev pub IsCareful : Call → Type 0
  IsCareful (patch_rp o p) = p.spec ≡ o.spec
  IsCareful (patch_pod o p) = Acts × Counted
  IsCareful (patch_pod_status o p) = Acts × Counted
  IsCareful (update_scale n g r) =
      Acts
      × (r ≡ record z { replicas = wanted (seen running.of_online) s })
      × (eqb_ℤ (wanted (seen running.of_online) s) z.replicas ≡ false)
  IsCareful _ = Unit

  abbrev pub care : Contract Call Reply
  care = record { relies = Tells; allows = IsCareful; panics = Unit }

  pub reports : AllowsReports care
  reports = record {
    panicking = tt;
    timed = tt;
    evented = λ type reason pods. tt;
    updated = λ o. tt;
  }

  pub moves : Acts → Counted → AllowsMoves care
  moves acts counted = record { patched = λ o p. (acts, counted); gated = λ o p. (acts, counted) }

  abbrev pub IsSaved : ReplicaProfile → Type 0
  IsSaved rp = (rp.spec ≡ s) × (rp.status.online_replicas ≡ seen running.of_online)

  pub desired_replicas-wanted :
      (rp : ReplicaProfile) → IsSaved rp → desired_replicas rp ≡ wanted (seen running.of_online) s
  unfolding desired_replicas
  desired_replicas-wanted rp (e, k) =
      ap (λ n. wanted n rp.spec) k ∙ ap (wanted (seen running.of_online)) e

  pub is_ensured-met :
      (rp : ReplicaProfile) → rp.spec ≡ s → is_ensured (reflect_status running rp) ≡ is_met s
  unfolding is_ensured reflect_status
  is_ensured-met rp e = ap is_met e

  pub reflect_status-IsSaved :
      (rp : ReplicaProfile) → rp.spec ≡ s → IsSaved (reflect_status running rp)
  unfolding reflect_status
  reflect_status-IsSaved rp e = (e, refl)
