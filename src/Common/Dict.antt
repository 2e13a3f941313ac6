-- ===== src/Common/Dict.antt =====
-- Go's map[string]V: nil, or the entries made so far, one for each key. Reading a nil map finds
-- nothing, deleting from it does nothing, and assigning to it panics. Also the map helpers
-- of pkg/util/common.go.
pub mod Copy
use Prim.Native.String.{String}
use mathlib.Core.Path.{◌≡◌, refl}
use mathlib.Core.Bool.{Bool, true, false}
use mathlib.Core.Option.{Option, none, some}
use mathlib.Core.List.{List, [], ◌∷◌}
use mathlib.Core.Logic.{◌↔◌}
use native.Mathlib.Omega.{arith}
use kapacity.Common.Tests.{if◌then◌else◌}
use kapacity.Common.Equality.{◌==◌, string_eq}
use kapacity.Common.Outcome.{Go, ok, panic, ◌>>=◌}

-- One key's comparison, with its law at hand.
pub str_iff : (a b : String) → ((a == b) ≡ true) ↔ (a ≡ b)
str_iff a b = string_eq.agrees a b

pub str_iff_self : (a : String) → (a == a) ≡ true
str_iff_self a = (str_iff a a).1 refl

module _ {ℓ} {V : Type ℓ} where
  unfoldable pub find : String → List (String × V) → Option V
  find k [] = none
  find k ((j, v) ∷ m) = if j == k then some v else find k m

  unfoldable pub put : String → V → List (String × V) → List (String × V)
  put k v [] = (k, v) ∷ []
  put k v ((j, w) ∷ m) = if j == k then (k, v) ∷ m else (j, w) ∷ put k v m

  unfoldable pub drop : String → List (String × V) → List (String × V)
  drop k [] = []
  drop k ((j, w) ∷ m) = if j == k then drop k m else (j, w) ∷ drop k m

  pub find-put :
      (k j : String) (v : V) (m : List (String × V))
      → find j (put k v m) ≡ (if k == j then some v else find j m)
  unfolding find put
  find-put k j v [] = refl
  find-put k j v ((i, w) ∷ m) =
      ground (arith, str_iff k j, str_iff i k, str_iff i j, find-put k j v m)

  pub find-drop :
      (k j : String) (m : List (String × V))
      → find j (drop k m) ≡ (if k == j then none else find j m)
  unfolding find drop
  find-drop k j [] = ground arith
  find-drop k j ((i, w) ∷ m) =
      ground (arith, str_iff k j, str_iff i k, str_iff i j, find-drop k j m)

abbrev pub GoMap {ℓ} : Type ℓ → Type ℓ
GoMap V = Option (List (String × V))

module _ {ℓ} {V : Type ℓ} where
  abbrev pub entries : GoMap V → List (String × V)
  entries none = []
  entries (some m) = m

  -- `v, ok := m[k]`
  abbrev pub lookup : String → GoMap V → Option V
  lookup k m = find k (entries m)

  -- `m[k] = v`
  abbrev pub assign : String → V → GoMap V → Go (GoMap V)
  assign k v none = panic
  assign k v (some m) = ok (some (put k v m))

  -- `delete(m, k)`
  abbrev pub remove : String → GoMap V → GoMap V
  remove k none = none
  remove k (some m) = some (drop k m)

-- `m[k]` of a map of strings: the empty string if the key is missing.
abbrev pub text_or_empty : Option String → String
text_or_empty none = ""
text_or_empty (some s) = s

abbrev pub text_at : String → GoMap String → String
text_at k m = text_or_empty (lookup k m)

-- IsMapValueChanged, by the entries of the new map.
unfoldable pub differs : GoMap String → List (String × String) → Bool
differs old [] = false
differs old ((k, v) ∷ m) = elim (lookup k old) [
  | none ↦ true
  | some w ↦ if w == v then differs old m else true
]

unfoldable pub is_map_value_changed : GoMap String → GoMap String → Bool
unfolding differs
is_map_value_changed old new = differs old (entries new)

-- CopyMapValues, by the entries of the source map.
unfoldable pub copy_entries : List (String × String) → GoMap String → Go (GoMap String)
copy_entries [] dst = ok dst
copy_entries ((k, v) ∷ src) dst = assign k v dst >>= copy_entries src

unfoldable pub copy_map_values : GoMap String → GoMap String → Go (GoMap String)
unfolding copy_entries
copy_map_values dst src = copy_entries (entries src) dst

-- ConvertPromLabelSetToMap, by the entries of the label set.
unfoldable pub copy_labels :
    List (String × String) → List (String × String) → List (String × String)
copy_labels [] out = out
copy_labels ((k, v) ∷ labels) out = copy_labels labels (put k v out)

unfoldable pub convert_prom_label_set_to_map : GoMap String → GoMap String
convert_prom_label_set_to_map labels = some (copy_labels (entries labels) [])
