-- ===== src/Portrait/Provider.antt =====
-- The operations of DynamicHorizontal, pkg/portrait/provider/dynamic.go, on the portrait that an
-- IHPA owns. strings.ToLower, strings.Split and the semantic equality of specs are parameters. Owner
-- references are left out.
pub mod Owned
pub mod Clean
mod Tests
use Prim.Native.String.{◌++◌}
use kapacity.Common.{
  ℕ, Bool, String, List, [], ◌∷◌, Option, none, some, if◌then◌else◌, Go, ok, err, panic, not_found,
  wrap_err, wrapf,
}
use kapacity.Common.Int.{pos}
use kapacity.Common.Time.{Time}
use kapacity.Common.Prog.{on_found, pure_go, Prog, done, ◌>>=◌, ask}
use kapacity.Api.Meta.{NamespacedName, key_text, ObjectMeta}
use kapacity.Api.Algorithm.{PortraitSpec}
use kapacity.Api.HorizontalPortrait.{
  HorizontalPortrait, HorizontalPortraitSpec, HorizontalPortraitData, ReplicaCron,
}
use kapacity.Api.Ihpa.{Ihpa, HorizontalPortraitValue}
use kapacity.Portrait.Cron.{CronLibrary}
use kapacity.Portrait.Triggers.{Triggers, stop_cron_task_trigger, stop_timer_trigger}
use kapacity.Portrait.Dynamic.{build_portrait_value}

pub data Call : Type 0 where
  get_hp : NamespacedName → Call
  create_hp : HorizontalPortrait → Call
  patch_hp : (original modified : HorizontalPortrait) → Call
  delete_hp : HorizontalPortrait → Call

abbrev pub Reply : Call → Type 0
Reply (get_hp n) = Go HorizontalPortrait
Reply (create_hp o) = Go (Unit {0})
Reply (patch_hp o p) = Go (Unit {0})
Reply (delete_hp o) = Go (Unit {0})

abbrev pub Code : Type 0 → Type 0
Code = Prog Call Reply

unfoldable pub get_portrait_identifier : (portrait_type : String) → String
get_portrait_identifier portrait_type = "Dynamic-" ++ portrait_type

abbrev new_meta : NamespacedName → ObjectMeta
new_meta n = record {
  namespace = n.namespace;
  name = n.name;
  uid = "";
  generation = pos 0;
  deletion_timestamp = none;
  finalizers = [];
}

abbrev pub new_portrait : NamespacedName → HorizontalPortraitSpec → HorizontalPortrait
new_portrait n spec = record {
  meta = new_meta n;
  spec = spec;
  status = record { portrait_data = none; conditions = [] };
}

abbrev pub with_spec : HorizontalPortrait → HorizontalPortraitSpec → HorizontalPortrait
with_spec hp spec = record hp { spec = spec }

-- client.IgnoreNotFound
abbrev pub ignore_not_found : Go (Unit {0}) → Go (Unit {0})
ignore_not_found (err not_found) = ok tt
ignore_not_found r = r

module _ (to_lower : String → String) where
  unfoldable pub build_horizontal_portrait_name : (name portrait_type : String) → String
  build_horizontal_portrait_name name portrait_type = to_lower (name ++ "-" ++ portrait_type)

  unfoldable pub portrait_key : Ihpa → (portrait_type : String) → NamespacedName
  portrait_key ihpa portrait_type = record {
    namespace = ihpa.meta.namespace;
    name = build_horizontal_portrait_name ihpa.meta.name portrait_type;
  }

  -- UpdatePortraitSpec
  module _ (same_spec : HorizontalPortraitSpec → HorizontalPortraitSpec → Bool) where
    unfoldable pub apply_spec :
        NamespacedName → HorizontalPortraitSpec → HorizontalPortrait → Code (Go (Unit {0}))
    apply_spec n spec hp = if same_spec hp.spec spec then done (ok tt) else (do
      patched ← ask (patch_hp hp (with_spec hp spec))
      pure_go (wrap_err "failed to patch HorizontalPortrait %q" (key_text n ∷ []) patched))

    unfoldable pub create_portrait : NamespacedName → HorizontalPortraitSpec → Code (Go (Unit {0}))
    create_portrait n spec = do
      created ← ask (create_hp (new_portrait n spec))
      pure_go (wrap_err "failed to create HorizontalPortrait %q" (key_text n ∷ []) created)

    unfoldable pub update_to : NamespacedName → HorizontalPortraitSpec → Code (Go (Unit {0}))
    update_to n spec = do
      found ← ask (get_hp n)
      on_found found (create_portrait n spec)
          (λ e. done (err (wrapf "failed to get HorizontalPortrait %q" (key_text n ∷ []) e)))
          (apply_spec n spec)

    unfoldable pub update_portrait_spec : Ihpa → PortraitSpec → Code (Go (Unit {0}))
    update_portrait_spec ihpa spec =
        update_to (portrait_key ihpa spec.portrait_type)
          (record { scale_target_ref = ihpa.spec.scale_target_ref; portrait = spec })

  -- CleanupPortrait: the triggers are stopped, whatever the API server replies. An index out of the
  -- range of the parts panics.
  module _ (split : (text separator : String) → List String) where
    abbrev second_part : List String → Option String
    second_part (a ∷ b ∷ parts) = some b
    second_part _ = none

    unfoldable pub delete_portrait : NamespacedName → Code (Go (Unit {0}))
    delete_portrait n = do
      found ← ask (get_hp n)
      on_found found (done (ok tt))
          (λ e. done (err (wrapf "failed to get HorizontalPortrait %q" (key_text n ∷ []) e)))
          (λ hp. do
            deleted ← ask (delete_hp hp)
            pure_go (
                wrap_err "failed to delete HorizontalPortrait %q" (key_text n ∷ [])
                  (ignore_not_found deleted)))

    abbrev cleanup_of : Ihpa → Option String → Triggers → Triggers × Code (Go (Unit {0}))
    cleanup_of ihpa none s = (s, Prog.crash)
    cleanup_of ihpa (some portrait_type) s =
        let n = portrait_key ihpa portrait_type in
        (stop_timer_trigger n (stop_cron_task_trigger n s), delete_portrait n)

    unfoldable pub cleanup_portrait :
        Ihpa → (identifier : String) → Triggers → Triggers × Code (Go (Unit {0}))
    cleanup_portrait ihpa identifier s = cleanup_of ihpa (second_part (split identifier "-")) s

  -- FetchPortraitValue, with the reply to its read.
  module _ (library : CronLibrary) (hash : List ReplicaCron → Go ℕ)
      (load_location : String → Go (Unit {0})) (add_func : (spec : String) → Go (Unit {0})) where
    abbrev value_of_data :
        NamespacedName
        → (provider : String) → Time
        → Option HorizontalPortraitData
        → Triggers
        → Triggers × Go (Option HorizontalPortraitValue)
    value_of_data n provider now none s = (s, ok none)
    value_of_data n provider now (some d) s =
        let built = build_portrait_value library hash load_location add_func provider n now d s in
        (
          built.0,
          wrap_err "failed to build portrait value from data of HorizontalPortrait %q"
              (key_text n ∷ []) built.1,
        )

    unfoldable pub fetch_portrait_value :
        (NamespacedName → Go HorizontalPortrait)
        → Ihpa
        → PortraitSpec
        → Time
        → Triggers
        → Triggers × Go (Option HorizontalPortraitValue)
    fetch_portrait_value get ihpa spec now s =
        let n = portrait_key ihpa spec.portrait_type in
        elim (get n) [
          | ok hp ↦
              value_of_data n (get_portrait_identifier spec.portrait_type) now
                hp.status.portrait_data s
          | err e ↦ (s, err (wrapf "failed to get HorizontalPortrait %q" (key_text n ∷ []) e))
          | panic ↦ (s, panic)
        ]
