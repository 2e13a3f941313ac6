-- ===== src/Profile/Watch.antt =====
-- The pod watch of the ReplicaProfile controller: findReplicaProfileToEnqueueForPod and
-- podStateChangePredicate.
use kapacity.Common.{
  Bool, false, not, ◌||◌, ◌&&◌, List, [], ◌∷◌, Option, none, some, if◌then◌else◌, ok, err, panic,
}
use kapacity.Common.Time.{is_zero_ptr}
use kapacity.Common.Prog.{Prog, done, ◌>>=◌, ask}
use kapacity.Pod.Data.{Pod}
use kapacity.Pod.State.{state_changed}
use kapacity.Util.Selector.{Selector}
use kapacity.Api.Meta.{NamespacedName}
use kapacity.Api.ReplicaProfile.{ReplicaProfile}
use kapacity.Profile.Calls.{Code, list_rps, load_selector}

abbrev key_of : ReplicaProfile → NamespacedName
key_of rp = record { namespace = rp.meta.namespace; name = rp.meta.name }

abbrev matches_cached : Option Selector → Pod → Bool
matches_cached none pod = false
matches_cached (some s) pod = s.matches pod.labels

-- The loop over the ReplicaProfiles of the namespace: the first whose cached selector matches.
unfoldable pub first_match : Pod → List ReplicaProfile → Code (Option NamespacedName)
first_match pod [] = done none
first_match pod (rp ∷ rps) = do
  cached ← ask (load_selector (key_of rp))
  let rest = first_match pod rps
  (if matches_cached cached pod
      then done (
          if not (is_zero_ptr rp.meta.deletion_timestamp) || rp.spec.paused
          then none
          else some (key_of rp))
      else rest)

unfoldable pub find_replica_profile_to_enqueue_for_pod : Pod → Code (Option NamespacedName)
find_replica_profile_to_enqueue_for_pod pod = do
  listed ← ask (list_rps pod.namespace)
  elim listed [ ok rps ↦ first_match pod rps | err e ↦ done none | panic ↦ Prog.crash ]

-- The predicate on update events of pods; that of ResourceVersionChangedPredicate is a parameter.
unfoldable pub pod_state_change_predicate : (Pod → Pod → Bool) → Pod → Pod → Bool
pod_state_change_predicate resource_version_changed old new =
    resource_version_changed old new && state_changed old new
