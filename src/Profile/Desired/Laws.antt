-- ===== src/Profile/Desired/Laws.antt =====
-- getDesiredOnlineReplicas against isOnlineReplicasEnsured and the scaling direction.
use kapacity.Common.{◌≡◌, refl, Bool-cases, ◌⊎◌, inl, inr, arith}
use kapacity.Common.Int.{ℤ, leb_ℤ, eqb_ℤ, ◌≤ℤ◌}
use kapacity.Util.{max_int32, min_int32}
use kapacity.Api.ReplicaProfile.{ScalingDirection, both, neither, up, down}
use kapacity.Profile.Desired.{is_online_replicas_ensured, get_desired_online_replicas}

-- The online replicas count as ensured exactly if the desired number of them, which the scaling
-- direction allows, is the current number: what is ensured is left alone, and what is not is changed.
pub ensured-desired :
    (d : ScalingDirection) (spec status : ℤ)
    → is_online_replicas_ensured d spec status
      ≡ eqb_ℤ (get_desired_online_replicas d spec status) status
unfolding is_online_replicas_ensured get_desired_online_replicas
ensured-desired up spec status = ground arith
ensured-desired down spec status = ground arith
ensured-desired neither spec status = ground arith
ensured-desired both spec status = ground arith

-- What a direction lets the number of replicas do.
abbrev pub Allows : ScalingDirection → (before after : ℤ) → Type 0
Allows up before after = before ≤ℤ after
Allows down before after = after ≤ℤ before
Allows neither before after = before ≡ after
Allows both before after = Unit

-- The desired number of online replicas is never on the side of the current number that the scaling
-- direction rules out, and it never overshoots: it is the number of the spec or the current one.
pub desired-Allows :
    (d : ScalingDirection) (spec status : ℤ)
    → Allows d status (get_desired_online_replicas d spec status)
      × ((get_desired_online_replicas d spec status ≡ spec)
          ⊎ (get_desired_online_replicas d spec status ≡ status))
unfolding get_desired_online_replicas max_int32 min_int32
desired-Allows up spec status = elim (Bool-cases (leb_ℤ status spec)) [
  | inl e ↦ rw e (ground arith, inl refl)
  | inr e ↦ rw e (ground arith, inr refl)
]
desired-Allows down spec status = elim (Bool-cases (leb_ℤ spec status)) [
  | inl e ↦ rw e (ground arith, inl refl)
  | inr e ↦ rw e (ground arith, inr refl)
]
desired-Allows neither spec status = (refl, inr refl)
desired-Allows both spec status = (tt, inl refl)
