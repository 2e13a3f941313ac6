-- ===== src/Ihpa/Calls.antt =====
-- The calls of the IHPA controller: the API server, the portrait providers behind the interface
-- Horizontal (pkg/portrait/provider/interfaces.go), the map of identifiers that it keeps, and the
-- clock. A write that succeeds is answered with the object as the server has it, which replaces
-- the object that was sent.
use kapacity.Common.{String, List, Option, Go}
use kapacity.Common.Prog.{Prog}
use kapacity.Common.Time.{Time}
use kapacity.Api.Meta.{NamespacedName}
use kapacity.Api.Ihpa.{Ihpa, HorizontalPortraitProvider, HorizontalPortraitValue}
use kapacity.Api.ReplicaProfile.{ReplicaProfile}

pub data Call : Type 0 where
  get_ihpa : NamespacedName → Call
  patch_ihpa : (original modified : Ihpa) → Call
  update_ihpa_status : Ihpa → Call
  get_rp : NamespacedName → Call
  create_rp : ReplicaProfile → Call
  patch_rp : (original modified : ReplicaProfile) → Call
  delete_rp : ReplicaProfile → Call
  event : (type reason : String) → Call
  update_portrait_spec : (type : String) → Ihpa → HorizontalPortraitProvider → Call
  fetch_portrait_value : (type : String) → Ihpa → HorizontalPortraitProvider → Call
  cleanup_portrait : (type : String) → Ihpa → (identifier : String) → Call
  load_identifiers : NamespacedName → Call
  store_identifiers : NamespacedName → List String → Call
  delete_identifiers : NamespacedName → Call
  clock : Call

abbrev pub Reply : Call → Type 0
Reply (get_ihpa n) = Go Ihpa
Reply (patch_ihpa o p) = Go Ihpa
Reply (update_ihpa_status o) = Go Ihpa
Reply (get_rp n) = Go ReplicaProfile
Reply (create_rp o) = Go ReplicaProfile
Reply (patch_rp o p) = Go ReplicaProfile
Reply (delete_rp o) = Go (Unit {0})
Reply (event t r) = Unit
Reply (update_portrait_spec t o c) = Go (Unit {0})
Reply (fetch_portrait_value t o c) = Go (Option HorizontalPortraitValue)
Reply (cleanup_portrait t o i) = Go (Unit {0})
Reply (load_identifiers n) = Option (List String)
Reply (store_identifiers n s) = Unit
Reply (delete_identifiers n) = Unit
Reply clock = Time

abbrev pub Code : Type 0 → Type 0
Code = Prog Call Reply

-- The providers that the controller is set up with: how each type names a portrait.
abbrev pub Providers : Type 0
Providers = List (String × (Ihpa → HorizontalPortraitProvider → String))
