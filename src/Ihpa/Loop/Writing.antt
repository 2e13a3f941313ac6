-- ===== src/Ihpa/Loop/Writing.antt =====
-- How Reconcile of the IHPA controller writes and removes a ReplicaProfile within the bounds.
use kapacity.Common.{
  Bool, true, false, String, List, Option, none, some, Error, ◌≡◌, refl, if◌then◌else◌, arith,
}
use kapacity.Common.Int.{ℤ, pos, ◌≤ℤ◌, eqb_ℤ}
use kapacity.Common.Range.{MapRange}
use kapacity.Common.Prog.{on_go, done, ask, Safe, on_found-Safe, ◌>>=◌, Outcome}
use kapacity.Util.Finalizer.{Finalizers}
use kapacity.Api.ReplicaProfile.{ReplicaProfile}
use kapacity.Api.Ihpa.{Ihpa, IhpaSpec, IhpaStatus, HorizontalPortraitValue, auto, preview}
use kapacity.Ihpa.Gray.{ReplicaData, ReplicaCap, none_cap, min_cap, max_cap, Generated}
use kapacity.Ihpa.Gray.Bounds.{plain, IsCapped}
use kapacity.Ihpa.Calls.{Code, Providers, patch_rp, event}
use kapacity.Ihpa.Profile.{new_replica_profile, update_replica_profile}
use kapacity.Ihpa.Reconcile.{set_ihpa_condition, limited_condition, progress_condition}
use kapacity.Ihpa.Loop.Reports.{
  condition-Fine, and_then, if-Fine, on_go-Fine, finish-Fine, fail_with-Fine,
}
use kapacity.Ihpa.Loop.{
  apply_generated, write_profile, remove_profile, fail_with, announce_update, same_replicas,
  rp_spec_eq,
}
use kapacity.Ihpa.Loop.Bounding.{IsBounded, bounding, reports}

module _ (s : IhpaSpec) where
  abbrev Fine : {A : Type 0} → Code A → Type 0
  Fine m = Safe (bounding s) (λ r. Unit) m

  abbrev pub IsBoundedData : ReplicaData → Type 0
  IsBoundedData d =
      (s.min_replicas ≤ℤ d.online_replicas)
      × (d.online_replicas ≤ℤ s.max_replicas)
      × (d.cutoff_replicas ≡ pos 0)
      × (d.standby_replicas ≡ pos 0)

  le_refl : (a : ℤ) → a ≤ℤ a
  le_refl a = ground arith

  pub capped-IsBounded :
      (o : Ihpa) (v : HorizontalPortraitValue) (c : ℤ × ReplicaCap)
      → s.min_replicas ≤ℤ s.max_replicas
      → IsCapped s.min_replicas s.max_replicas v.replicas c
      → IsBoundedData (plain o v c).replicas
  capped-IsBounded o v (x, none_cap) h (e, lo, hi) = rw e (lo, hi, refl, refl)
  capped-IsBounded o v (x, min_cap) h (e, lo) = rw e (le_refl s.min_replicas, h, refl, refl)
  capped-IsBounded o v (x, max_cap) h (e, hi) = rw e (h, le_refl s.max_replicas, refl, refl)

  limited_condition-Fine : (o : Ihpa) (cap : ReplicaCap) → Fine (limited_condition o cap)
  limited_condition-Fine o none_cap = condition-Fine (bounding s) (reports s) o _ _ _ _
  limited_condition-Fine o min_cap = condition-Fine (bounding s) (reports s) o _ _ _ _
  limited_condition-Fine o max_cap = condition-Fine (bounding s) (reports s) o _ _ _ _

  progress_condition-Fine : (o : Ihpa) (rp : ReplicaProfile) → Fine (progress_condition o rp)
  progress_condition-Fine o rp = by_value o.status.current_portrait_value refl
    where
      by_test :
          (b : Bool)
          → Fine (
              if b
              then set_ihpa_condition o "GrayProgressing" "False" "ReplicasMatchPortrait"
                  "online replica count matches replica count of current portrait value"
              else set_ihpa_condition o "GrayProgressing" "True" "ReplicasNotMatchPortrait"
                  "online replica count does not match replica count of current portrait value")
      by_test true = condition-Fine (bounding s) (reports s) o "GrayProgressing" _ _ _
      by_test false = condition-Fine (bounding s) (reports s) o "GrayProgressing" _ _ _

      by_value :
          (c : Option HorizontalPortraitValue)
          → o.status.current_portrait_value ≡ c
          → Fine (progress_condition o rp)
      by_value none e = rw (e, progress_condition) tt
      by_value (some v) e =
          rw (e, progress_condition) (by_test (eqb_ℤ v.replicas rp.spec.online_replicas))

  module _ (fin : Finalizers) (split : String → List String) (order : MapRange)
      (error_text : Error → String) (providers : Providers) where
    pub failing :
        (o : Ihpa) (original : IhpaStatus) (reason prefix : String) (e : Error)
        → Fine (fail_with fin split order error_text providers o original reason prefix e)
    failing o original reason prefix e =
        fail_with-Fine (bounding s) (reports s) fin split order error_text providers o original
          reason prefix e

    announce_update-Fine :
        (d : ReplicaData) (rp : ReplicaProfile)
        → Fine (announce_update fin split order error_text providers d rp)
    announce_update-Fine d rp =
        let announced : Fine (ask (event "Normal" "UpdateReplicaProfile")) = (tt, λ r h. tt) in
        if-Fine (bounding s) (reports s) (same_replicas d rp) (done tt) _ (λ b. tt) (λ b. announced)

    patched-Fine :
        (o : Ihpa) (original : IhpaStatus) (rp q : ReplicaProfile)
        → (next : ReplicaProfile → Code Outcome) → s.scale_mode ≡ auto
        → IsBounded s q.spec
        → ((x : ReplicaProfile) → Fine (next x))
        → Fine (do
          patched ← ask (patch_rp rp q)
          on_go patched
              (fail_with fin split order error_text providers o original
                "FailedUpdateReplicaProfile" "failed to patch ReplicaProfile")
              next)
    patched-Fine o original rp q next m b n =
        ((m, b), λ r h. on_go-Fine (bounding s) (reports s) r _ _ (failing o original _ _) n)

    write_profile-Fine :
        (o : Ihpa) (original : IhpaStatus) (d : ReplicaData) (rp : Option ReplicaProfile)
        → (next : ReplicaProfile → Code Outcome) → s.scale_mode ≡ auto
        → IsBoundedData d
        → ((q : ReplicaProfile) → Fine (next q))
        → Fine (write_profile fin split order error_text providers o original d rp next)
    unfolding write_profile new_replica_profile update_replica_profile
    write_profile-Fine o original d none next m b n = (
      tt,
      λ u h. ((m, b), λ r e. on_go-Fine (bounding s) (reports s) r _ _ (failing o original _ _) n),
    )
    write_profile-Fine o original d (some rp) next m b n =
        and_then (bounding s) (reports s)
          (announce_update fin split order error_text providers d rp) _ (announce_update-Fine d rp)
          (λ u.
            if-Fine (bounding s) (reports s)
              (rp_spec_eq.beq (update_replica_profile o d rp).spec rp.spec)
              (next (update_replica_profile o d rp)) _ (λ e. n (update_replica_profile o d rp))
              (λ e. patched-Fine o original rp (update_replica_profile o d rp) next m b n))

    pub apply_generated-Fine :
        (original : IhpaStatus) (rp : Option ReplicaProfile) (g : Generated)
        → s.scale_mode ≡ auto
        → IsBoundedData g.replicas
        → Fine (apply_generated fin split order error_text providers original rp g)
    unfolding apply_generated
    apply_generated-Fine original rp g m b =
        and_then (bounding s) (reports s) (limited_condition g.ihpa g.replica_cap) _
          (limited_condition-Fine g.ihpa g.replica_cap)
          (λ limited. write_profile-Fine limited original g.replicas rp _ m b (λ written.
            and_then (bounding s) (reports s) (progress_condition limited written) _
              (progress_condition-Fine limited written)
              (λ progressed.
                finish-Fine (bounding s) (reports s) progressed original _ _ _ g.remain_time)))

    pub remove_profile-Fine :
        (o : Ihpa) (original : IhpaStatus) (rp : Option ReplicaProfile)
        → s.scale_mode ≡ preview
        → Fine (remove_profile fin split order error_text providers o original rp)
    unfolding remove_profile
    remove_profile-Fine o original none m = finish-Fine (bounding s) (reports s) o original _ _ _ _
    remove_profile-Fine o original (some rp) m = (
      m,
      λ r h.
          on_found-Safe (bounding s) (λ r. Unit) r _ _ _
            (λ e. finish-Fine (bounding s) (reports s) o original _ _ _ _)
            (λ e d. failing o original _ _ e)
            (λ u e. finish-Fine (bounding s) (reports s) o original _ _ _ _) (λ e. tt),
    )
