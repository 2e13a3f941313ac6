-- ===== src/Ihpa/Loop/Bounded.antt =====
-- Reconcile of the IHPA controller on an object that is neither paused nor changed gradually.
use kapacity.Common.{
  false, String, List, Option, none, some, Bool-cases, inl, inr, Go, ok, err, panic, Error, ◌≡◌,
  refl, sym, subst, ◌∙◌, ap,
}
use kapacity.Common.Int.{◌≤ℤ◌}
use kapacity.Common.Range.{MapRange}
use kapacity.Common.Time.{Time, is_zero_ptr}
use kapacity.Common.Prog.{on_go, done, Safe, Safe->>=, on_found-Safe, failed}
use kapacity.Util.Finalizer.{Finalizers}
use kapacity.Api.Meta.{NamespacedName}
use kapacity.Api.ReplicaProfile.{ReplicaProfile}
use kapacity.Api.Ihpa.{
  Ihpa, IhpaSpec, IhpaStatus, HorizontalPortraitValue, ScaleMode, auto, preview, unknown_mode,
}
use kapacity.Ihpa.Gray.{generate_ihpa_replica_data}
use kapacity.Ihpa.Gray.Bounds.{
  plain, IsCapped, generate_ihpa_replica_data-IsCapped, generate_ihpa_replica_data-panic,
}
use kapacity.Ihpa.Calls.{Code, Providers, get_ihpa, patch_ihpa}
use kapacity.Ihpa.Portrait.{update_and_fetch_portrait_value}
use kapacity.Ihpa.Portrait.Fetches.{update_and_fetch_portrait_value-Fine}
use kapacity.Ihpa.Reconcile.{get_replica_profile, store_value}
use kapacity.Ihpa.Loop.Reports.{
  and_then, if-Fine, on_go-Fine, finish-Fine, error_out-Fine, get_replica_profile-Fine,
}
use kapacity.Ihpa.Loop.{
  reconcile, reconcile_found, reconcile_live, reconcile_active, with_value, scale_ihpa, by_mode,
  apply_generated, ensure_finalizer, reconcile_deleted, remove_finalizer,
}
use kapacity.Ihpa.Loop.Bounding.{HasSpec, bounding, reports, portraits, KeepsSpec, store_value-Safe}
use kapacity.Ihpa.Loop.Writing.{
  capped-IsBounded, failing, apply_generated-Fine, remove_profile-Fine,
}

module _ (s : IhpaSpec) where
  abbrev Fine : {A : Type 0} → Code A → Type 0
  Fine m = Safe (bounding s) (λ r. Unit) m

  module _ (fin : Finalizers) (split : String → List String) (order : MapRange)
      (error_text : Error → String) (providers : Providers) where
    module _ (up : s.behavior.scale_up.gray_strategy ≡ none)
        (down : s.behavior.scale_down.gray_strategy ≡ none)
        (ordered : s.min_replicas ≤ℤ s.max_replicas) where
      generated-Fine :
          (now : Time) (o : Ihpa) (original : IhpaStatus) (rp : Option ReplicaProfile)
          → o.spec ≡ s
          → s.scale_mode ≡ auto
          → (c : Option HorizontalPortraitValue) → o.status.current_portrait_value ≡ c
          → Fine (
              on_go
                (generate_ihpa_replica_data now o)
                (λ e. done (failed e))
                (apply_generated fin split order error_text providers original rp))
      generated-Fine now o original rp e m none c = rw (generate_ihpa_replica_data-panic now o c) tt
      generated-Fine now o original rp e m (some v) c =
          let (q, d, capped) =
            generate_ihpa_replica_data-IsCapped now o v c
              (subst (λ x. x.behavior.scale_up.gray_strategy ≡ none) (sym e) up)
              (subst (λ x. x.behavior.scale_down.gray_strategy ≡ none) (sym e) down)
              (subst (λ x. x.min_replicas ≤ℤ x.max_replicas) (sym e) ordered) in
          rw d (
            apply_generated-Fine s fin split order error_text providers original rp (plain o v q) m
              (capped-IsBounded s o v q ordered
                (subst (λ x. IsCapped x.min_replicas x.max_replicas v.replicas q) e capped)))

      by_mode-Fine :
          (o : Ihpa) (original : IhpaStatus) (rp : Option ReplicaProfile) (mode : ScaleMode)
          → o.spec ≡ s
          → s.scale_mode ≡ mode
          → Fine (by_mode fin split order error_text providers o original rp mode)
      unfolding by_mode
      by_mode-Fine o original rp auto e m =
          (tt, λ now h. generated-Fine now o original rp e m o.status.current_portrait_value refl)
      by_mode-Fine o original rp preview e m =
          remove_profile-Fine s fin split order error_text providers o original rp m
      by_mode-Fine o original rp (unknown_mode x) e m =
          finish-Fine (bounding s) (reports s) o original _ _ _ _

      scale_ihpa-Fine :
          (o : Ihpa) (original : IhpaStatus)
          → o.spec ≡ s
          → Fine (scale_ihpa fin split order error_text providers o original)
      unfolding scale_ihpa
      scale_ihpa-Fine o original e =
          and_then (bounding s) (reports s) (get_replica_profile o) _
            (get_replica_profile-Fine (bounding s) (reports s) o)
            (λ rp.
              on_go-Fine (bounding s) (reports s) rp _ _
                (failing s fin split order error_text providers o original _ _)
                (λ found.
                  by_mode-Fine o original found o.spec.scale_mode e
                    (ap (λ q. q.scale_mode) (sym e))))

      with_value-Fine :
          (o : Ihpa) (original : IhpaStatus) (v : Option HorizontalPortraitValue)
          → o.spec ≡ s
          → Fine (with_value fin split order error_text providers o original v)
      unfolding with_value
      with_value-Fine o original none e =
          and_then (bounding s) (reports s) _ _
            (error_out-Fine (bounding s) (reports s) o original _ _) (λ u. tt)
      with_value-Fine o original (some v) e =
          Safe->>= (bounding s) (KeepsSpec s) (λ r. Unit) (store_value o original v) _
            (store_value-Safe s o original v e) stored
        where
          stored :
              (r : Go (Ihpa × IhpaStatus))
              → (KeepsSpec s) r
              → Fine (
                  on_go r
                    (λ e. done (failed e))
                    (λ q. scale_ihpa fin split order error_text providers q.0 q.1))
          stored (ok (q, st)) h = scale_ihpa-Fine q st h
          stored (err x) h = tt
          stored panic h = tt

      active-Fine :
          (o : Ihpa)
          → o.spec ≡ s
          → Fine (reconcile_active fin split order error_text providers o o.status)
      unfolding reconcile_active
      active-Fine o e =
          and_then (bounding s) (reports s)
            (update_and_fetch_portrait_value split order providers o) _
            (update_and_fetch_portrait_value-Fine (bounding s) (portraits s) providers o split
              order)
            (λ value.
              on_go-Fine (bounding s) (reports s) value _ _
                (failing s fin split order error_text providers o o.status _ _)
                (λ v. with_value-Fine o o.status v e))

      abbrev KeepsGo : Go Ihpa → Type 0
      KeepsGo (ok o) = o.spec ≡ s
      KeepsGo _ = Unit

      live-Fine :
          (o : Ihpa)
          → o.spec ≡ s
          → s.paused ≡ false
          → Fine (reconcile_live fin split order error_text providers o)
      unfolding reconcile_live
      live-Fine o e p =
          if-Fine (bounding s) (reports s) o.spec.paused _ _
            (λ paused. let same = ap (λ q. q.paused) e in cc) (λ _. active-Fine o e)

      ensure_finalizer-Safe :
          (o : Ihpa)
          → o.spec ≡ s
          → Safe (bounding s) KeepsGo (ensure_finalizer fin split order error_text providers o)
      unfolding ensure_finalizer
      ensure_finalizer-Safe o e = elim (Bool-cases (fin.contains o.meta)) [
        | inl c ↦ rw c e
        | inr c ↦ rw c (refl, replied)
      ]
        where
          replied :
              (r : Go Ihpa)
              → HasSpec s (patch_ihpa o (record o { meta = fin.add o.meta })) r
              → KeepsGo r
          replied (ok q) h = h ∙ e
          replied (err d) h = tt
          replied panic h = tt

      remove_finalizer-Fine :
          (o : Ihpa) → Fine (remove_finalizer fin split order error_text providers o)
      unfolding remove_finalizer
      remove_finalizer-Fine o = elim (Bool-cases (fin.contains o.meta)) [
        | inl c ↦ rw c (refl, λ r h. tt)
        | inr c ↦ rw c tt
      ]

      deleted-Fine :
          (request : NamespacedName) (o : Ihpa)
          → Fine (reconcile_deleted fin split order error_text providers request o)
      unfolding reconcile_deleted
      deleted-Fine request o = elim (Bool-cases (fin.contains o.meta)) [
        | inl c ↦ rw c (
          tt,
          λ u h.
              and_then (bounding s) (reports s)
                (remove_finalizer fin split order error_text providers o) _
                (remove_finalizer-Fine o)
                (λ removed. on_go-Fine (bounding s) (reports s) removed _ _ (λ e. tt) (λ q. tt)),
        )
        | inr c ↦ rw c tt
      ]

      found-Fine :
          (request : NamespacedName) (o : Ihpa)
          → o.spec ≡ s
          → s.paused ≡ false
          → Fine (reconcile_found fin split order error_text providers request o)
      unfolding reconcile_found
      found-Fine request o e p =
          if-Fine (bounding s) (reports s) (is_zero_ptr o.meta.deletion_timestamp) _ _
            (λ _.
              Safe->>= (bounding s) KeepsGo (λ r. Unit)
                (ensure_finalizer fin split order error_text providers o) _
                (ensure_finalizer-Safe o e) ensured)
            (λ _. deleted-Fine request o)
        where
          ensured :
              (r : Go Ihpa)
              → KeepsGo r
              → Fine (
                  on_go r
                    (λ d. done (failed d))
                    (reconcile_live fin split order error_text providers))
          ensured (ok q) h = live-Fine q h p
          ensured (err d) h = tt
          ensured panic h = tt

      -- An object with bounds in order, without gray strategies and not paused, whose spec the API server
      -- keeps when the metadata or the status is written: its reconciliation writes a ReplicaProfile
      -- only in the mode Auto, and then with all replicas online and their number within the bounds,
      -- whatever the portraits ask for; it deletes one only in the mode Preview; and it never
      -- changes the object's spec.
      pub reconcile-Bounded :
          (request : NamespacedName)
          → s.paused ≡ false
          → Safe (bounding s) (λ r. Unit) (reconcile fin split order error_text providers request)
      unfolding reconcile
      reconcile-Bounded request p = (
        tt,
        λ r h.
            on_found-Safe (bounding s) (λ r. Unit) r _ _ _ (λ e. tt) (λ e d. tt)
              (λ o e. found-Fine request o (subst (HasSpec s (get_ihpa request)) e h) p) (λ e. tt),
      )
