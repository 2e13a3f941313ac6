-- ===== src/Common/Dict/Copy.antt =====
-- IsMapValueChanged and CopyMapValues of pkg/util/common.go, one after the other.
use Prim.Native.String.{String}
use mathlib.Core.Path.{◌≡◌, refl, ap, ◌∙◌, subst}
use mathlib.Core.Bool.{Bool, true, false}
use mathlib.Core.Logic.{inl, inr}
use mathlib.Core.Option.{Option, none, some}
use mathlib.Core.List.{List, [], ◌∷◌}
use kapacity.Common.Tests.{if◌then◌else◌, Bool-cases}
use kapacity.Common.Equality.{◌==◌, string_eq}
use kapacity.Common.Outcome.{ok}
use kapacity.Common.Dict.{
  str_iff, str_iff_self, find, put, find-put, GoMap, entries, differs, is_map_value_changed,
  copy_entries, copy_map_values, lookup, copy_labels, convert_prom_label_set_to_map,
}

-- The entries of a map: no key stands twice.
abbrev pub Apart : List (String × String) → Type 0
Apart [] = Unit
Apart ((k, v) ∷ m) = (find k m ≡ none) × Apart m

abbrev pub over : {V : Type 0} → Option V → Option V → Option V
over none b = b
over (some a) b = some a

abbrev pub Holds : List (String × String) → List (String × String) → List (String × String) → Type 0
Holds src m new = (j : String) → find j new ≡ over (find j src) (find j m)

order :
    (b : Bool) (v : String) (o w : Option String)
    → (b ≡ true → o ≡ none)
    → over o (if b then some v else w) ≡ over (if b then some v else o) w
order true v o w h = rw (h refl) refl
order false v o w h = refl

step :
    (k v j : String) (src m new : List (String × String))
    → find k src ≡ none
    → find j new ≡ over (find j src) (find j (put k v m))
    → find j new ≡ over (find j ((k, v) ∷ src)) (find j m)
unfolding find
step k v j src m new fresh e =
    e
    ∙ ap (over (find j src)) (find-put k j v m)
    ∙ order (k == j) v (find j src) (find j m)
        (λ same. subst (λ i. find i src ≡ none) ((str_iff k j).0 same) fresh)

-- Copying into a map that is not nil never panics; the copied keys have their values, and every
-- other key the value from before.
pub copy_entries-Holds :
    (src m : List (String × String))
    → Apart src
    → (new : List (String × String)) × (copy_entries src (some m) ≡ ok (some new)) × Holds src m new
unfolding copy_entries find
copy_entries-Holds [] m d = (m, refl, λ j. refl)
copy_entries-Holds ((k, v) ∷ src) m d =
    let rest = copy_entries-Holds src (put k v m) d.1 in
    (rest.0, rest.1, λ j. step k v j src m rest.0 d.0 (rest.2 j))

later :
    (k v j w : String) (src : List (String × String))
    → find k src ≡ none
    → find j src ≡ some w
    → find j ((k, v) ∷ src) ≡ some w
unfolding find
later k v j w src fresh e = elim (Bool-cases (k == j)) [
  | inl same ↦ cc (subst (λ i. find i src ≡ none) ((str_iff k j).0 same) fresh)
  | inr other ↦ rw other e
]

differs_step :
    (k v : String) (src : List (String × String)) (new : GoMap String)
    → find k (entries new) ≡ some v
    → differs new src ≡ false
    → differs new ((k, v) ∷ src) ≡ false
unfolding differs
differs_step k v src new e h = rw (differs, e, str_iff_self v) h

same_entries :
    (src : List (String × String)) (new : GoMap String)
    → Apart src
    → ((j w : String) → find j src ≡ some w → find j (entries new) ≡ some w)
    → differs new src ≡ false
unfolding differs find
same_entries [] new d h = refl
same_entries ((k, v) ∷ src) new d h =
    differs_step k v src new (h k v (rw (str_iff_self k) refl))
      (same_entries src new d.1 (λ j w e. h j w (later k v j w src d.0 e)))

-- A map that was copied into another one is no change to it.
pub is_map_value_changed-copy_map_values :
    (src : GoMap String) (m : List (String × String))
    → Apart (entries src)
    → (new : GoMap String) × (copy_map_values (some m) src ≡ ok new)
      × (is_map_value_changed new src ≡ false)
unfolding is_map_value_changed copy_map_values
is_map_value_changed-copy_map_values src m d =
    let copied = copy_entries-Holds (entries src) m d in
    (
      some copied.0,
      copied.1,
      same_entries (entries src) (some copied.0) d
          (λ j w e. copied.2 j ∙ ap (λ o. over o (find j m)) e),
    )

pub is_map_value_changed_self :
    (m : GoMap String) → Apart (entries m) → is_map_value_changed m m ≡ false
unfolding is_map_value_changed
is_map_value_changed_self m d = same_entries (entries m) m d (λ j w e. e)

copy_labels-Holds : (src m : List (String × String)) → Apart src → Holds src m (copy_labels src m)
unfolding copy_labels find
copy_labels-Holds [] m d j = refl
copy_labels-Holds ((k, v) ∷ src) m d j =
    step k v j src m (copy_labels src (put k v m)) d.0 (copy_labels-Holds src (put k v m) d.1 j)

no_rest : (o : Option String) → over o none ≡ o
no_rest none = refl
no_rest (some v) = refl

-- A converted label set has the same labels.
pub lookup-convert_prom_label_set_to_map :
    (labels : GoMap String) (k : String)
    → Apart (entries labels)
    → lookup k (convert_prom_label_set_to_map labels) ≡ lookup k labels
unfolding convert_prom_label_set_to_map find
lookup-convert_prom_label_set_to_map labels k d =
    copy_labels-Holds (entries labels) [] d k ∙ no_rest (find k (entries labels))
