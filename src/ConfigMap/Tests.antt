-- ===== src/ConfigMap/Tests.antt =====
-- The theorems on the results of external jobs at concrete ConfigMaps.
use mathlib.Core.List.{Perm}
use mathlib.Core.List.Perm
use kapacity.Common.{
  Bool, false, String, List, [], ◌∷◌, none, some, All, inl, inr, Bool-cases, if◌then◌else◌, ◌==◌,
  string_eq, Go, ok, err, not_found, ◌≡◌, refl, arith,
}
use kapacity.Common.Int.{pos}
use kapacity.Common.Gives.{Gives}
use kapacity.Common.Dict.{GoMap, find, text_at}
use kapacity.Api.Meta.{NamespacedName}
use kapacity.Api.HorizontalPortrait.{HorizontalPortrait, ReplicaTimeSeriesPoint}
use kapacity.Portrait.Dynamic.{find_point}
use kapacity.Portrait.Dynamic.Current.{IsCurrent, find_point-IsCurrent}
use kapacity.ConfigMap.Fetch.{Library, point, result_key, read_result}
use kapacity.ConfigMap.Watch.{on_add, on_update, on_update-result_key}
use kapacity.ConfigMap.Sorted.{Ordered, IsOrder, Sorts, HasSeriesOf, read_result-HasSeriesOf}

abbrev Less : Type 0
Less = ReplicaTimeSeriesPoint → ReplicaTimeSeriesPoint → Bool

-- sort.Slice by insertion: each point goes before the first one that is not less.
unfoldable place :
    Less → ReplicaTimeSeriesPoint → List ReplicaTimeSeriesPoint → List ReplicaTimeSeriesPoint
place less p [] = p ∷ []
place less p (q ∷ qs) = if less q p then q ∷ place less p qs else p ∷ q ∷ qs

unfoldable sort_slice : Less → List ReplicaTimeSeriesPoint → List ReplicaTimeSeriesPoint
sort_slice less [] = []
sort_slice less (p ∷ ps) = place less p (sort_slice less ps)

place-Perm :
    (less : Less) (p : ReplicaTimeSeriesPoint) (qs : List ReplicaTimeSeriesPoint)
    → Perm (place less p qs) (p ∷ qs)
unfolding place
place-Perm less p [] = Perm.refl (p ∷ [])
place-Perm less p (q ∷ qs) = elim (Bool-cases (less q p)) [
  | inl e ↦ rw e (Perm.trans (Perm.cons q (place-Perm less p qs)) (Perm.swap p q qs))
  | inr e ↦ rw e (Perm.refl (p ∷ q ∷ qs))
]

sort_slice-Perm : (less : Less) (ps : List ReplicaTimeSeriesPoint) → Perm (sort_slice less ps) ps
unfolding sort_slice
sort_slice-Perm less [] = Perm.refl []
sort_slice-Perm less (p ∷ ps) =
    Perm.trans (place-Perm less p (sort_slice less ps)) (Perm.cons p (sort_slice-Perm less ps))

place-All :
    (less : Less) (first p : ReplicaTimeSeriesPoint) (qs : List ReplicaTimeSeriesPoint)
    → less p first ≡ false
    → All (λ q. less q first ≡ false) qs
    → All (λ q. less q first ≡ false) (place less p qs)
unfolding place
place-All less first p [] h a = (h, tt)
place-All less first p (q ∷ qs) h a = elim (Bool-cases (less q p)) [
  | inl e ↦ rw e (a.0, place-All less first p qs h a.1)
  | inr e ↦ rw e (h, a)
]

from_first :
    (less : Less) (order : IsOrder less) (p q : ReplicaTimeSeriesPoint)
    (qs : List ReplicaTimeSeriesPoint)
    → less q p ≡ false
    → All (λ r. less r q ≡ false) qs
    → All (λ r. less r p ≡ false) qs
from_first less order p q [] h a = tt
from_first less order p q (r ∷ qs) h a =
    (order.not_less p q r a.0 h, from_first less order p q qs h a.1)

place-Ordered :
    (less : Less) (order : IsOrder less) (p : ReplicaTimeSeriesPoint)
    (qs : List ReplicaTimeSeriesPoint)
    → Ordered less qs
    → Ordered less (place less p qs)
unfolding place
place-Ordered less order p [] h = (tt, tt)
place-Ordered less order p (q ∷ qs) h = elim (Bool-cases (less q p)) [
  | inl e ↦
      rw e (place-All less q p qs (order.asymmetric q p e) h.0, place-Ordered less order p qs h.1)
  | inr e ↦ rw e ((e, from_first less order p q qs e h.0), h)
]

sort_slice-Ordered :
    (less : Less)
    → IsOrder less
    → (ps : List ReplicaTimeSeriesPoint) → Ordered less (sort_slice less ps)
unfolding sort_slice
sort_slice-Ordered less order [] = tt
sort_slice-Ordered less order (p ∷ ps) =
    place-Ordered less order p (sort_slice less ps) (sort_slice-Ordered less order ps)

abbrev library : Library
library = record {
  parse_time = λ s. err not_found;
  unmarshal = λ s. if s == "{}" then ok [] else ok (("200", pos 5) ∷ ("100", pos 3) ∷ []);
  parse_int = λ s. ok (if s == "100" then pos 100 else pos 200);
  sort_slice = sort_slice;
}

sorts : Sorts sort_slice
sorts = record { permutes = sort_slice-Perm; orders = sort_slice-Ordered }

abbrev written : GoMap String
written = some (("type", "TimeSeries") ∷ ("timeSeries", "{\"200\":5,\"100\":3}") ∷ [])

read_result-HasSeriesOf_example :
    Gives (HasSeriesOf library sorts written) (read_result library written)
unfolding find
read_result-HasSeriesOf_example = read_result-HasSeriesOf library sorts written

abbrev day : List ReplicaTimeSeriesPoint
day = point (pos 100) (pos 3) ∷ point (pos 200) (pos 6) ∷ []

find_point-IsCurrent_example : IsCurrent (pos 150) day (find_point (pos 150) day)
find_point-IsCurrent_example = find_point-IsCurrent (pos 150) day ((ground arith, tt), (tt, tt))

abbrev portrait : HorizontalPortrait
portrait = record {
  meta = record {
    namespace = "default";
    name = "web";
    uid = "1";
    generation = pos 1;
    deletion_timestamp = none;
    finalizers = [];
  };
  spec = record {
    scale_target_ref = record { api_version = "apps/v1"; kind = "Deployment"; name = "web" };
    portrait = record {
      portrait_type = "Predictive";
      external_generator_name = "";
      metrics = [];
      algorithm = record {
        type = "ExternalJob";
        external_job = none;
        kube_hpa = none;
        config = none;
      };
    };
  };
  status = record { portrait_data = none; conditions = [] };
}

abbrev has_suffix : String → String → Bool
has_suffix text suffix = text == "web-result"

abbrev without_suffix : String → String → String
without_suffix text suffix = if text == "web-result" then "web" else text

abbrev portraits : NamespacedName → Go HorizontalPortrait
portraits n = if n.name == "web" then ok portrait else err not_found

abbrev same_text : GoMap String → GoMap String → Bool
same_text m n = text_at "timeSeries" m == text_at "timeSeries" n

on_update-result_key_example :
    (on_add has_suffix without_suffix portraits
        (record { key = result_key portrait; data_of = written })
      ≡ ok (some portrait))
    × (on_update has_suffix without_suffix portraits same_text
          (record { key = result_key portrait; data_of = none })
          (record { key = result_key portrait; data_of = written })
        ≡ ok (some portrait))
unfolding find
on_update-result_key_example =
    on_update-result_key has_suffix without_suffix portraits same_text portrait
      (record { key = result_key portrait; data_of = none }) written refl refl refl refl
