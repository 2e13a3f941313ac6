-- ===== src/Ihpa/Loop/Bounding.antt =====
-- The contract of a reconciliation that keeps to the bounds of the spec, and how Reconcile of the IHPA
-- controller stores a portrait value under it.
use kapacity.Common.{some, Bool-cases, inl, inr, Go, ok, err, panic, ◌≡◌, ◌∙◌}
use kapacity.Common.Int.{pos, ◌≤ℤ◌}
use kapacity.Common.Prog.{on_go, done, Contract, Safe, Safe->>=, ◌>>=◌}
use kapacity.Api.ReplicaProfile.{ReplicaProfileSpec}
use kapacity.Api.Ihpa.{Ihpa, IhpaSpec, IhpaStatus, HorizontalPortraitValue, auto, preview}
use kapacity.Ihpa.Gray.{is_ihpa_gray_active}
use kapacity.Ihpa.Calls.{
  Call, Reply, Code, get_ihpa, patch_ihpa, update_ihpa_status, create_rp, patch_rp, delete_rp,
}
use kapacity.Ihpa.Portrait.Fetches.{AllowsPortraits}
use kapacity.Ihpa.Reconcile.{
  store_value, start_gray, take_value, update_status_if_needed, status_eq, value_eq,
}
use kapacity.Ihpa.Loop.Reports.{AllowsReports}

-- What is relied on: the object has the spec, and keeps it when its metadata or status is written.
abbrev pub HasSpec : IhpaSpec → (c : Call) → Reply c → Type 0
HasSpec s (get_ihpa n) (ok o) = o.spec ≡ s
HasSpec s (patch_ihpa o p) (ok q) = q.spec ≡ p.spec
HasSpec s (update_ihpa_status o) (ok q) = q.spec ≡ o.spec
HasSpec s _ _ = Unit

-- All replicas are online, and their number is within the bounds.
abbrev pub IsBounded : IhpaSpec → ReplicaProfileSpec → Type 0
IsBounded s r =
    (s.min_replicas ≤ℤ r.online_replicas)
    × (r.online_replicas ≤ℤ s.max_replicas)
    × (r.cutoff_replicas ≡ pos 0)
    × (r.standby_replicas ≡ pos 0)

-- A ReplicaProfile is written in the mode Auto, and deleted in the mode Preview.
abbrev pub Bounded : IhpaSpec → Call → Type 0
Bounded s (patch_ihpa o p) = p.spec ≡ o.spec
Bounded s (create_rp p) = (s.scale_mode ≡ auto) × IsBounded s p.spec
Bounded s (patch_rp o p) = (s.scale_mode ≡ auto) × IsBounded s p.spec
Bounded s (delete_rp o) = s.scale_mode ≡ preview
Bounded s _ = Unit

abbrev pub bounding : IhpaSpec → Contract Call Reply
bounding s = record { relies = HasSpec s; allows = Bounded s; panics = Unit }

module _ (s : IhpaSpec) where
  pub reports : AllowsReports (bounding s)
  reports = record {
    panicking = tt;
    timed = tt;
    evented = λ type reason. tt;
    updated = λ o. tt;
    read = λ n. tt;
  }

  pub portraits : AllowsPortraits (bounding s)
  portraits = record {
    panicking = tt;
    timed = tt;
    loads = λ n. tt;
    stores = λ n ids. tt;
    updates = λ type o cfg. tt;
    fetches = λ type o cfg. tt;
    cleans = λ type o id. tt;
  }

  abbrev Fine : {A : Type 0} → Code A → Type 0
  Fine m = Safe (bounding s) (λ r. Unit) m

  abbrev pub KeepsSpec : Go (Ihpa × IhpaStatus) → Type 0
  KeepsSpec (ok (o, original)) = o.spec ≡ s
  KeepsSpec _ = Unit

  start_gray-Safe : (o : Ihpa) → o.spec ≡ s → Safe (bounding s) (λ q. q.spec ≡ s) (start_gray o)
  unfolding start_gray
  start_gray-Safe o e = elim (Bool-cases (is_ihpa_gray_active o)) [
    | inl b ↦ rw b (tt, λ now h. e)
    | inr b ↦ rw b e
  ]

  updated-Safe :
      (o : Ihpa) (original : IhpaStatus)
      → o.spec ≡ s
      → Safe (bounding s) KeepsSpec (
          update_status_if_needed o original >>= λ updated.
          on_go updated (λ e. done (err e)) (λ q. done (ok (q, q.status))))
  unfolding update_status_if_needed
  updated-Safe o original e = elim (Bool-cases (status_eq.beq original o.status)) [
    | inl b ↦ rw b e
    | inr b ↦ rw b (tt, replied)
  ]
    where
      replied :
          (r : Go Ihpa)
          → HasSpec s (update_ihpa_status o) r
          → Safe (bounding s) KeepsSpec (on_go r (λ e. done (err e)) (λ q. done (ok (q, q.status))))
      replied (ok q) h = h ∙ e
      replied (err d) h = tt
      replied panic h = tt

  pub store_value-Safe :
      (o : Ihpa) (original : IhpaStatus) (v : HorizontalPortraitValue)
      → o.spec ≡ s
      → Safe (bounding s) KeepsSpec (store_value o original v)
  unfolding store_value take_value
  store_value-Safe o original v e =
      elim (Bool-cases (value_eq.beq o.status.current_portrait_value (some v))) [
        | inl b ↦ rw b e
        | inr b ↦ rw b (
            Safe->>= (bounding s) (λ q. q.spec ≡ s) KeepsSpec (start_gray (take_value o v)) _
              (start_gray-Safe (take_value o v) e) (λ q h. updated-Safe q original h))
      ]
