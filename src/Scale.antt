-- ===== src/Scale.antt =====
-- pkg/scale/scaler.go: the scale of a target, by the first resource mapping that has one. The
-- parsing of an API version, the mappings, and the scale client are parameters.
pub mod Laws
use kapacity.Common.{
  String, List, [], ◌∷◌, Option, none, some, Go, ok, err, panic, Error, errorf, ◌>>=◌, wrap_err,
}
use kapacity.Common.Int.{ℤ}
use kapacity.Api.Meta.{TargetRef}

pub record GroupResource : Type 0 where
  pub group : String
  pub resource : String

-- autoscaling/v1 Scale: the desired replicas, and the replicas and the selector of its status.
pub record Scale : Type 0 where
  pub replicas : ℤ
  pub status_replicas : ℤ
  pub selector : String

-- What the scaler calls.
pub record ScaleClient : Type 0 where
  pub parse_group : (api_version : String) → Go String
  pub rest_mappings : (group kind : String) → Go (List GroupResource)
  pub get : (namespace : String) → GroupResource → (name : String) → Go Scale

-- The error to return when no mapping works: the first one.
abbrev first_error : Option Error → Error
first_error none = errorf "unrecognized resource" []
first_error (some e) = e

abbrev remember : Option Error → Error → Option Error
remember none e = some e
remember (some d) e = some d

module _ (client : ScaleClient) where
  -- The loop over the mappings, with the error remembered.
  unfoldable pub try_mappings :
      (namespace name : String) → Option Error → List GroupResource → Go (Scale × GroupResource)
  try_mappings namespace name e [] = err (first_error e)
  try_mappings namespace name e (m ∷ ms) = elim (client.get namespace m name) [
    | ok s ↦ ok (s, m)
    | err d ↦ try_mappings namespace name (remember e d) ms
    | panic ↦ panic
  ]

  unfoldable pub scale_for_resource_mappings :
      (namespace name : String) → List GroupResource → Go (Scale × GroupResource)
  scale_for_resource_mappings namespace name ms = try_mappings namespace name none ms

  unfoldable pub get_scale : (namespace : String) → TargetRef → Go (Scale × GroupResource)
  get_scale namespace target = do
    group ←
        wrap_err "invalid API version in scale target reference" []
          (client.parse_group target.api_version)
    mappings ←
        wrap_err "unable to determine resource for scale target reference" []
          (client.rest_mappings group target.kind)
    wrap_err "failed to query scale subresource" []
        (scale_for_resource_mappings namespace target.name mappings)
