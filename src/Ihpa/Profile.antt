-- ===== src/Ihpa/Profile.antt =====
-- The ReplicaProfile that the IHPA controller writes: newReplicaProfile, the update in Reconcile,
-- getAllowedScalingDirection and defaultReplicaProfileBehavior.
use kapacity.Common.{Bool, true, false, not, [], Option, none, some}
use kapacity.Common.Int.{pos}
use kapacity.Api.ReplicaProfile.{
  ReplicaProfile, ReplicaProfileBehavior, ScalingDirection, both, neither, workload_default,
  readiness_gate,
}
use kapacity.Api.Ihpa.{Ihpa}
use kapacity.Ihpa.Gray.{ReplicaData}

abbrev direction : (up down : Bool) → ScalingDirection
direction true true = both
direction true false = ScalingDirection.up
direction false true = ScalingDirection.down
direction false false = neither

unfoldable pub get_allowed_scaling_direction : Ihpa → ScalingDirection
get_allowed_scaling_direction ihpa =
    direction (not ihpa.spec.behavior.scale_up.disabled)
      (not ihpa.spec.behavior.scale_down.disabled)

abbrev pub default_replica_profile_behavior : ReplicaProfileBehavior
default_replica_profile_behavior = record {
  pod_sorter = workload_default;
  pod_traffic_controller = readiness_gate;
}

abbrev pub behavior_of : Option ReplicaProfileBehavior → ReplicaProfileBehavior
behavior_of none = default_replica_profile_behavior
behavior_of (some b) = b

unfoldable pub new_replica_profile : Ihpa → ReplicaData → ReplicaProfile
new_replica_profile ihpa d = record {
  meta = record {
    namespace = ihpa.meta.namespace;
    name = ihpa.meta.name;
    uid = "";
    generation = pos 0;
    deletion_timestamp = none;
    finalizers = [];
  };
  spec = record {
    scale_target_ref = ihpa.spec.scale_target_ref;
    online_replicas = d.online_replicas;
    cutoff_replicas = d.cutoff_replicas;
    standby_replicas = d.standby_replicas;
    paused = ihpa.spec.paused;
    allowed_scaling_direction = get_allowed_scaling_direction ihpa;
    behavior = behavior_of ihpa.spec.behavior.replica_profile;
  };
  status = record {
    online_replicas = pos 0;
    cutoff_replicas = pos 0;
    standby_replicas = pos 0;
    conditions = [];
  };
}

-- The fields that Reconcile assigns in a ReplicaProfile that exists: not the target.
unfoldable pub update_replica_profile : Ihpa → ReplicaData → ReplicaProfile → ReplicaProfile
update_replica_profile ihpa d rp = record rp {
  spec = record rp.spec {
    online_replicas = d.online_replicas;
    cutoff_replicas = d.cutoff_replicas;
    standby_replicas = d.standby_replicas;
    paused = ihpa.spec.paused;
    allowed_scaling_direction = get_allowed_scaling_direction ihpa;
    behavior = behavior_of ihpa.spec.behavior.replica_profile;
  };
}
