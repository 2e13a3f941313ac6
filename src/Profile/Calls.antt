-- ===== src/Profile/Calls.antt =====
-- The calls of the ReplicaProfile controller: the API server, the scale client, the cache of pod
-- selectors, and the clock. A write that succeeds is answered with the object as the server has it.
use kapacity.Common.{String, List, Option, Go}
use kapacity.Common.Prog.{Prog}
use kapacity.Common.Time.{Time}
use kapacity.Util.Selector.{Selector}
use kapacity.Pod.Data.{Pod}
use kapacity.Scale.{Scale, GroupResource}
use kapacity.Api.Meta.{NamespacedName, TargetRef}
use kapacity.Api.ReplicaProfile.{ReplicaProfile}

pub data Call : Type 0 where
  get_rp : NamespacedName → Call
  list_rps : (namespace : String) → Call
  patch_rp : (original modified : ReplicaProfile) → Call
  update_rp_status : ReplicaProfile → Call
  event : (type reason : String) → (pods : List String) → Call
  get_scale : (namespace : String) → TargetRef → Call
  update_scale : (namespace : String) → GroupResource → Scale → Call
  list_pods : (namespace : String) → Selector → Call
  patch_pod : (original modified : Pod) → Call
  patch_pod_status : (original modified : Pod) → Call
  cache_selector : NamespacedName → Selector → Call
  load_selector : NamespacedName → Call
  delete_selector : NamespacedName → Call
  clock : Call

abbrev pub Reply : Call → Type 0
Reply (get_rp n) = Go ReplicaProfile
Reply (list_rps n) = Go (List ReplicaProfile)
Reply (patch_rp o p) = Go ReplicaProfile
Reply (update_rp_status o) = Go ReplicaProfile
Reply (event t r p) = Unit
Reply (get_scale n t) = Go (Scale × GroupResource)
Reply (update_scale n g s) = Go (Unit {0})
Reply (list_pods n s) = Go (List Pod)
Reply (patch_pod o p) = Go Pod
Reply (patch_pod_status o p) = Go Pod
Reply (cache_selector n s) = Unit
Reply (load_selector n) = Option Selector
Reply (delete_selector n) = Unit
Reply clock = Time

abbrev pub Code : Type 0 → Type 0
Code = Prog Call Reply
