-- ===== src/ConfigMap/Sorted.antt =====
-- The time series that FetchResult returns.
use kapacity.Common.{
  Bool, true, false, arith, String, List, [], ◌∷◌, ok, All, ◌≡◌, refl, ◌==◌, string_eq,
}
use kapacity.Common.Dict.{GoMap, text_at}
use kapacity.Common.Gives.{Gives, reply-Gives, any-Gives, if-Gives, Gives-wrap_err, Gives->>=}
use kapacity.Common.Int.{ℤ, ◌≤ℤ◌}
use mathlib.Core.List.{Perm}
use kapacity.Api.HorizontalPortrait.{
  HorizontalPortraitData, PortraitData, time_series_data, ReplicaTimeSeriesPoint,
}
use kapacity.ConfigMap.Fetch.{
  Library, parse_points, time_series_of, body_of, read_result, expire_time_of, is_earlier,
}

abbrev pub Ascending : List ReplicaTimeSeriesPoint → Type 0
Ascending [] = Unit
Ascending (p ∷ ps) = All (λ q. p.timestamp ≤ℤ q.timestamp) ps × Ascending ps

-- A strict weak order, which sort.Slice wants of its comparison.
pub record IsOrder (less : ReplicaTimeSeriesPoint → ReplicaTimeSeriesPoint → Bool) : Type 0 where
  pub asymmetric : (p q : ReplicaTimeSeriesPoint) → less p q ≡ true → less q p ≡ false
  pub not_less :
      (p q r : ReplicaTimeSeriesPoint) → less r q ≡ false → less q p ≡ false → less r p ≡ false

-- No point is less than one before it.
abbrev pub Ordered :
    (ReplicaTimeSeriesPoint → ReplicaTimeSeriesPoint → Bool) → List ReplicaTimeSeriesPoint → Type 0
Ordered less [] = Unit
Ordered less (p ∷ ps) = All (λ q. less q p ≡ false) ps × Ordered less ps

-- What is relied on of sort.Slice, with any comparison.
pub record Sorts
    (sort_slice : (ReplicaTimeSeriesPoint → ReplicaTimeSeriesPoint → Bool)
      → List ReplicaTimeSeriesPoint
      → List ReplicaTimeSeriesPoint)
    : Type 0 where
  pub permutes :
      (less : ReplicaTimeSeriesPoint → ReplicaTimeSeriesPoint → Bool)
      (ps : List ReplicaTimeSeriesPoint)
      → Perm (sort_slice less ps) ps
  pub orders :
      (less : ReplicaTimeSeriesPoint → ReplicaTimeSeriesPoint → Bool)
      → IsOrder less
      → (ps : List ReplicaTimeSeriesPoint) → Ordered less (sort_slice less ps)

is_earlier-IsOrder : IsOrder is_earlier
unfolding is_earlier
is_earlier-IsOrder = record {
  asymmetric = λ p q h. ground (arith, h);
  not_less = λ p q r h k. ground (arith, h, k);
}

none_earlier :
    (p : ReplicaTimeSeriesPoint) (qs : List ReplicaTimeSeriesPoint)
    → All (λ q. is_earlier q p ≡ false) qs
    → All (λ q. p.timestamp ≤ℤ q.timestamp) qs
unfolding is_earlier
none_earlier p [] h = tt
none_earlier p (q ∷ qs) (h, hs) = (ground (arith, h), none_earlier p qs hs)

Ordered-Ascending : (ps : List ReplicaTimeSeriesPoint) → Ordered is_earlier ps → Ascending ps
Ordered-Ascending [] h = tt
Ordered-Ascending (p ∷ ps) (h, hs) = (none_earlier p ps h, Ordered-Ascending ps hs)

module _ (lib : Library) (sorts : Sorts lib.sort_slice) where
  -- The points of the series are those of the map, one for each entry, with the keys parsed.
  abbrev pub Parsed : List (String × ℤ) → List ReplicaTimeSeriesPoint → Type 0
  Parsed [] [] = Unit
  Parsed ((k, v) ∷ m) (p ∷ ps) = (lib.parse_int k ≡ ok p.timestamp) × (p.replicas ≡ v) × Parsed m ps
  Parsed _ _ = ⊥

  parse_points-Parsed : (m : List (String × ℤ)) → Gives (Parsed m) (parse_points lib m)
  unfolding parse_points
  parse_points-Parsed [] = tt
  parse_points-Parsed ((k, v) ∷ m) =
      Gives->>= (λ ts. lib.parse_int k ≡ ok ts) (Parsed ((k, v) ∷ m)) _ _
        (Gives-wrap_err (λ ts. lib.parse_int k ≡ ok ts) _ _ (lib.parse_int k)
          (reply-Gives (lib.parse_int k)))
        (λ ts e.
          Gives->>= (Parsed m) (Parsed ((k, v) ∷ m)) (parse_points lib m) _ (parse_points-Parsed m)
            (λ ps h. (e, refl, h)))

  -- The body that the text of a series gives.
  abbrev pub HasSeries : String → PortraitData → Type 0
  HasSeries text body =
      (m : List (String × ℤ)) × (ps : List ReplicaTimeSeriesPoint) × (qs : List
        ReplicaTimeSeriesPoint)
      × (lib.unmarshal text ≡ ok m)
      × Parsed m ps
      × (body ≡ time_series_data qs)
      × Perm qs ps
      × Ascending qs

  time_series_of-HasSeries : (text : String) → Gives (HasSeries text) (time_series_of lib text)
  unfolding time_series_of
  time_series_of-HasSeries text =
      if-Gives (HasSeries text) (text == "") _ _ (λ e. tt)
        (λ e.
          Gives->>= (λ m. lib.unmarshal text ≡ ok m) (HasSeries text) _ _
            (Gives-wrap_err (λ m. lib.unmarshal text ≡ ok m) _ _ (lib.unmarshal text)
              (reply-Gives (lib.unmarshal text)))
            (λ m u.
              Gives->>= (Parsed m) (HasSeries text) (parse_points lib m) _ (parse_points-Parsed m)
                (λ ps h. (
                  m,
                  ps,
                  lib.sort_slice is_earlier ps,
                  u,
                  h,
                  refl,
                  sorts.permutes is_earlier ps,
                  Ordered-Ascending _ (sorts.orders is_earlier is_earlier-IsOrder ps),
                ))))

  body_of-HasSeries :
      (type : String) (data_of : GoMap String)
      → Gives (HasSeries (text_at "timeSeries" data_of)) (body_of lib type data_of)
  unfolding body_of
  body_of-HasSeries type data_of =
      if-Gives (HasSeries (text_at "timeSeries" data_of)) (type == "TimeSeries") _ _
        (λ e. time_series_of-HasSeries (text_at "timeSeries" data_of)) (λ e. tt)

  abbrev pub HasSeriesOf : GoMap String → HorizontalPortraitData → Type 0
  HasSeriesOf data_of d = HasSeries (text_at "timeSeries" data_of) d.body

  -- Data that is read from a ConfigMap is a time series: its points are those of the map that stands
  -- in the ConfigMap, one for each entry, with the keys parsed, in the order of their timestamps. Of
  -- sort.Slice it is relied on that it permutes its slice, and that no element of the result is less
  -- than one before it by the comparison it is called with, if this is a strict weak order.
  pub read_result-HasSeriesOf :
      (data_of : GoMap String) → Gives (HasSeriesOf data_of) (read_result lib data_of)
  unfolding read_result
  read_result-HasSeriesOf data_of =
      if-Gives (HasSeriesOf data_of) (text_at "type" data_of == "") _ _ (λ e. tt)
        (λ e.
          Gives->>= (λ t. Unit) (HasSeriesOf data_of) _ _
            (any-Gives (expire_time_of lib (text_at "expireTime" data_of)))
            (λ expire u.
              Gives->>= (HasSeries (text_at "timeSeries" data_of)) (HasSeriesOf data_of) _ _
                (body_of-HasSeries (text_at "type" data_of) data_of) (λ body h. h)))
