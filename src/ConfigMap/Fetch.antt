-- ===== src/ConfigMap/Fetch.antt =====
-- FetchResult of configmap.go.
use Prim.Native.String.{◌++◌}
use kapacity.Common.{
  Bool, String, List, [], ◌∷◌, Option, none, some, if◌then◌else◌, ◌==◌, string_eq, Go, ok, err,
  errorf, ◌>>=◌, wrap_err,
}
use kapacity.Common.Int.{ℤ, ltb_ℤ}
use kapacity.Common.Time.{Time}
use kapacity.Common.Dict.{GoMap, text_at}
use kapacity.Api.Meta.{NamespacedName, key_text}
use kapacity.Api.HorizontalPortrait.{
  HorizontalPortrait, HorizontalPortraitData, PortraitData, ReplicaTimeSeriesPoint,
  time_series_data,
}

-- corev1.ConfigMap
pub record ConfigMap : Type 0 where
  pub key : NamespacedName
  pub data_of : GoMap String

pub record Library : Type 0 where
  pub parse_time : String → Go Time
  pub unmarshal : String → Go (List (String × ℤ))
  pub parse_int : String → Go ℤ
  pub sort_slice :
      (less : ReplicaTimeSeriesPoint → ReplicaTimeSeriesPoint → Bool)
      → List ReplicaTimeSeriesPoint
      → List ReplicaTimeSeriesPoint

abbrev pub point : ℤ → ℤ → ReplicaTimeSeriesPoint
point timestamp replicas = record { timestamp = timestamp; replicas = replicas }

-- The comparison that sort.Slice is called with.
unfoldable pub is_earlier : ReplicaTimeSeriesPoint → ReplicaTimeSeriesPoint → Bool
is_earlier p q = ltb_ℤ p.timestamp q.timestamp

-- The ConfigMap of a portrait.
unfoldable pub result_key : HorizontalPortrait → NamespacedName
result_key hp = record { namespace = hp.meta.namespace; name = hp.meta.name ++ "-result" }

module _ (lib : Library) where
  unfoldable pub expire_time_of : String → Go (Option Time)
  expire_time_of text = if text == "" then ok none else (do
    t ← wrap_err "failed to parse %q" ("expireTime" ∷ []) (lib.parse_time text)
    ok (some t))

  -- The loop over the map.
  unfoldable pub parse_points : List (String × ℤ) → Go (List ReplicaTimeSeriesPoint)
  parse_points [] = ok []
  parse_points ((k, v) ∷ m) = do
    ts ← wrap_err "failed to parse %q to int64 timestamp" (k ∷ []) (lib.parse_int k)
    rest ← parse_points m
    ok (point ts v ∷ rest)

  unfoldable pub time_series_of : String → Go PortraitData
  time_series_of text =
      if text == "" then err (errorf "invalid result data: missing %q" ("timeSeries" ∷ [])) else (do
        m ← wrap_err "failed to unmarshal %q" ("timeSeries" ∷ []) (lib.unmarshal text)
        points ← parse_points m
        ok (time_series_data (lib.sort_slice is_earlier points)))

  -- The switch over the type of the result.
  unfoldable pub body_of : (type : String) → GoMap String → Go PortraitData
  body_of type data_of =
      if type == "TimeSeries"
      then time_series_of (text_at "timeSeries" data_of)
      else err (errorf "unsupported result type %q" (type ∷ []))

  unfoldable pub read_result : GoMap String → Go HorizontalPortraitData
  read_result data_of =
      if text_at "type" data_of == ""
      then err (errorf "invalid result data: missing %q" ("type" ∷ []))
      else (do
        expire ← expire_time_of (text_at "expireTime" data_of)
        body ← body_of (text_at "type" data_of) data_of
        ok (record { body = body; expire_time = expire }))

  unfoldable pub fetch_result :
      (NamespacedName → Go ConfigMap) → HorizontalPortrait → Go HorizontalPortraitData
  fetch_result get_config_map hp = do
    cm ←
        wrap_err "failed to get ConfigMap %q" (key_text (result_key hp) ∷ [])
          (get_config_map (result_key hp))
    read_result cm.data_of
