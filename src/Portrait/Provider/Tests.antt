-- ===== src/Portrait/Provider/Tests.antt =====
-- The theorems on the dynamic provider at a concrete IHPA.
use kapacity.Common.{
  Bool, true, false, String, List, [], ◌∷◌, none, some, if◌then◌else◌, ◌==◌, string_eq, ◌≡◌, refl,
}
use kapacity.Common.Int.{pos}
use kapacity.Common.World.{Keeps}
use kapacity.Api.Algorithm.{PortraitSpec}
use kapacity.Api.HorizontalPortrait.{HorizontalPortrait, HorizontalPortraitSpec}
use kapacity.Api.Ihpa.{Ihpa, ScalingBehavior, ScaleMode}
use kapacity.Portrait.Triggers.{Triggers}
use kapacity.Portrait.Provider.{
  get_portrait_identifier, portrait_key, update_portrait_spec, cleanup_portrait,
}
use kapacity.Portrait.Provider.Owned.{updating, Owned, wanted, update_portrait_spec-Owned}
use kapacity.Portrait.Provider.Clean.{Stopped, cleaning, Gone, cleanup_portrait-Gone}

abbrev lower : String → String
lower s = if s == "web-Burst" then "web-burst" else s

abbrev split : String → String → List String
split text separator = if text == "Dynamic-Burst" then "Dynamic" ∷ "Burst" ∷ [] else text ∷ []

abbrev burst : PortraitSpec
burst = record {
  portrait_type = "Burst";
  external_generator_name = "";
  metrics = [];
  algorithm = record { type = "KubeHPA"; external_job = none; kube_hpa = none; config = none };
}

abbrev at_once : ScalingBehavior
at_once = record { disabled = false; gray_strategy = none }

abbrev web : Ihpa
web = record {
  meta = record {
    namespace = "default";
    name = "web";
    uid = "1";
    generation = pos 1;
    deletion_timestamp = none;
    finalizers = [];
  };
  spec = record {
    scale_target_ref = record { api_version = "apps/v1"; kind = "Deployment"; name = "web" };
    paused = false;
    min_replicas = pos 2;
    max_replicas = pos 8;
    scale_mode = ScaleMode.auto;
    portrait_providers = [];
    behavior = record { scale_up = at_once; scale_down = at_once; replica_profile = none };
  };
  status = record {
    previous_portrait_value = none;
    current_portrait_value = none;
    gray = none;
    conditions = [];
  };
}

-- An equality of specs that compares a field of theirs.
abbrev same_type : HorizontalPortraitSpec → HorizontalPortraitSpec → Bool
same_type x y = x.portrait.portrait_type == y.portrait.portrait_type

same_type_self : (x : HorizontalPortraitSpec) → same_type x x ≡ true
same_type_self x = (string_eq.agrees x.portrait.portrait_type x.portrait.portrait_type).1 refl

update_portrait_spec-Owned_example :
    Keeps
      (updating (portrait_key lower web "Burst") (wanted lower same_type same_type_self web burst))
      (Owned lower same_type same_type_self
        (portrait_key lower web "Burst")
        (wanted lower same_type same_type_self web burst))
      none
      (update_portrait_spec lower same_type web burst)
update_portrait_spec-Owned_example =
    update_portrait_spec-Owned lower same_type same_type_self web burst none

abbrev running : Triggers
running = record {
  cron_task_map = [];
  timer_canceller_map =
      (record { namespace = "default"; name = "web-burst" }, pos 500)
      ∷ (record { namespace = "default"; name = "db-burst" }, pos 700)
      ∷ [];
  actions = [];
}

-- The portrait, with the finalizer of its own controller.
abbrev being_kept : HorizontalPortrait
being_kept = record {
  meta = record {
    namespace = "default";
    name = "web-burst";
    uid = "2";
    generation = pos 1;
    deletion_timestamp = none;
    finalizers = "kapacitystack.io/finalizer" ∷ [];
  };
  spec = wanted lower same_type same_type_self web burst;
  status = record { portrait_data = none; conditions = [] };
}

cleanup_portrait-Gone_example :
    Stopped
      (portrait_key lower web "Burst")
      running
      (cleanup_portrait lower split web (get_portrait_identifier "Burst") running).0
    × Keeps
        (cleaning (portrait_key lower web "Burst"))
        Gone
        (some being_kept)
        (cleanup_portrait lower split web (get_portrait_identifier "Burst") running).1
unfolding get_portrait_identifier
cleanup_portrait-Gone_example =
    cleanup_portrait-Gone lower split web "Burst" running (some being_kept) refl
