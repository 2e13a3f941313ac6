-- ===== src/Profile/Desired.antt =====
-- The numbers of a ReplicaProfile that its scaling direction allows: isOnlineReplicasEnsured,
-- getDesiredOnlineReplicas, and the tests of Reconcile on them.
pub mod Laws
use kapacity.Common.{Bool, true, ◌&&◌, ◌||◌, ℕ}
use kapacity.Common.Int.{ℤ, pos, ◌+ℤ◌, ltb_ℤ, leb_ℤ, eqb_ℤ, int32}
use kapacity.Util.{max_int32, min_int32}
use kapacity.Api.ReplicaProfile.{
  ReplicaProfile, ReplicaProfileStatus, ScalingDirection, both, neither, up, down,
}

unfoldable pub is_online_replicas_ensured : ScalingDirection → (spec status : ℤ) → Bool
is_online_replicas_ensured up spec status = leb_ℤ spec status
is_online_replicas_ensured down spec status = leb_ℤ status spec
is_online_replicas_ensured neither spec status = true
is_online_replicas_ensured both spec status = eqb_ℤ status spec

unfoldable pub get_desired_online_replicas : ScalingDirection → (spec status : ℤ) → ℤ
unfolding max_int32 min_int32
get_desired_online_replicas up spec status = max_int32 spec status
get_desired_online_replicas down spec status = min_int32 spec status
get_desired_online_replicas neither spec status = status
get_desired_online_replicas both spec status = spec

abbrev pub desired_online : ReplicaProfile → ℤ
desired_online rp =
    get_desired_online_replicas rp.spec.allowed_scaling_direction rp.spec.online_replicas
      rp.status.online_replicas

unfoldable pub is_ensured : ReplicaProfile → Bool
is_ensured rp =
    is_online_replicas_ensured rp.spec.allowed_scaling_direction rp.spec.online_replicas
      rp.status.online_replicas
    && (eqb_ℤ rp.status.cutoff_replicas rp.spec.cutoff_replicas
        && eqb_ℤ rp.status.standby_replicas rp.spec.standby_replicas)

unfoldable pub need_state_change : ReplicaProfile → Bool
need_state_change rp =
    ltb_ℤ (pos 0) rp.spec.cutoff_replicas
    || (ltb_ℤ (pos 0) rp.spec.standby_replicas
        || (ltb_ℤ (pos 0) rp.status.cutoff_replicas || ltb_ℤ (pos 0) rp.status.standby_replicas))

-- The replicas that the target is scaled to.
unfoldable pub desired_replicas : ReplicaProfile → ℤ
desired_replicas rp =
    int32 (int32 (desired_online rp +ℤ rp.spec.cutoff_replicas) +ℤ rp.spec.standby_replicas)
