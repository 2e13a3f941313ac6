-- ===== src/ConfigMap/Watch.antt =====
-- The event handlers of configmap.go: the portrait that is triggered, if there is one.
use Prim.Native.String.{◌++◌}
use kapacity.Common.{
  Bool, true, false, String, [], ◌∷◌, Option, none, some, if◌then◌else◌, Go, ok, err, panic,
  not_found, wrap_err, ◌≡◌, refl,
}
use kapacity.Common.Dict.{GoMap}
use kapacity.Api.Meta.{NamespacedName, key_text}
use kapacity.Api.HorizontalPortrait.{HorizontalPortrait}
use kapacity.ConfigMap.Fetch.{ConfigMap, result_key}

abbrev optional : Go HorizontalPortrait → Go (Option HorizontalPortrait)
optional (ok hp) = ok (some hp)
optional (err not_found) = ok none
optional (err e) = err e
optional panic = panic

-- What is sent on the channel; an error is logged.
abbrev sent : Go (Option HorizontalPortrait) → Go (Option HorizontalPortrait)
sent (ok hp) = ok hp
sent (err e) = ok none
sent panic = panic

module _ (contains : (text part : String) → Bool) (trim_suffix : (text suffix : String) → String)
    (get_hp : NamespacedName → Go HorizontalPortrait) where
  abbrev portrait_key : ConfigMap → NamespacedName
  portrait_key cm = record {
    namespace = cm.key.namespace;
    name = trim_suffix cm.key.name "-result";
  }

  unfoldable pub get_horizontal_portrait_for_config_map : ConfigMap → Go (Option HorizontalPortrait)
  get_horizontal_portrait_for_config_map cm =
      if contains cm.key.name "-result"
      then wrap_err "failed to get HorizontalPortrait %q" (key_text (portrait_key cm) ∷ [])
          (optional (get_hp (portrait_key cm)))
      else ok none

  unfoldable pub on_add : ConfigMap → Go (Option HorizontalPortrait)
  on_add cm = sent (get_horizontal_portrait_for_config_map cm)

  module _ (same_data : GoMap String → GoMap String → Bool) where
    abbrev unless_same : Bool → Go (Option HorizontalPortrait) → Go (Option HorizontalPortrait)
    unless_same true (ok hp) = ok none
    unless_same _ r = r

    unfoldable pub on_update : (old new : ConfigMap) → Go (Option HorizontalPortrait)
    on_update old new =
        unless_same (same_data old.data_of new.data_of)
          (sent (get_horizontal_portrait_for_config_map new))

    found_again :
        (hp : HorizontalPortrait) (d : GoMap String)
        → contains (hp.meta.name ++ "-result") "-result" ≡ true
        → trim_suffix (hp.meta.name ++ "-result") "-result" ≡ hp.meta.name
        → get_hp (record { namespace = hp.meta.namespace; name = hp.meta.name }) ≡ ok hp
        → get_horizontal_portrait_for_config_map (record { key = result_key hp; data_of = d })
          ≡ ok (some hp)
    unfolding get_horizontal_portrait_for_config_map result_key
    found_again hp d found trimmed e = rw (found, trimmed, e) refl

    -- A portrait that exists is triggered by the ConfigMap that its result is fetched from, when
    -- this is added, and when it is updated with other data. Of strings.Contains and
    -- strings.TrimSuffix it is relied on that they find, and take off, the suffix of the name.
    pub on_update-result_key :
        (hp : HorizontalPortrait) (old : ConfigMap) (d : GoMap String)
        → contains (hp.meta.name ++ "-result") "-result" ≡ true
        → trim_suffix (hp.meta.name ++ "-result") "-result" ≡ hp.meta.name
        → get_hp (record { namespace = hp.meta.namespace; name = hp.meta.name }) ≡ ok hp
        → same_data old.data_of d ≡ false
        → (on_add (record { key = result_key hp; data_of = d }) ≡ ok (some hp))
          × (on_update old (record { key = result_key hp; data_of = d }) ≡ ok (some hp))
    unfolding on_add on_update
    on_update-result_key hp old d found trimmed e changed =
        let again = found_again hp d found trimmed e in (rw again refl, rw (changed, again) refl)
