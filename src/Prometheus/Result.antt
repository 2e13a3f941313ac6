-- ===== src/Prometheus/Result.antt =====
-- The conversions of pkg/metric/provider/prometheus/provider.go from the values of Prometheus to
-- samples and series. A value is known by its type, its text and the two type assertions.
use kapacity.Common.{String, List, [], ◌∷◌, map, Option, none, some, Go, ok, err, errorf}
use kapacity.Common.Int.{ℤ}
use kapacity.Common.Dict.{GoMap}
use kapacity.Metric.Data.{Sample, Series}

-- prommodel.ValueType, of which two are told apart.
pub data ValueType : Type 0 where
  val_vector val_matrix : ValueType
  other_type : ValueType

-- prommodel.SamplePair, Sample and SampleStream.
pub record SamplePair (Float : Type 0) : Type 0 where
  pub timestamp : ℤ
  pub value : Float

pub record PromSample (Float : Type 0) : Type 0 where
  pub metric : GoMap String
  pub timestamp : ℤ
  pub value : Float

pub record SampleStream (Float : Type 0) : Type 0 where
  pub metric : GoMap String
  pub values : List (SamplePair Float)

pub record PromValue (Float : Type 0) : Type 0 where
  pub type : ValueType
  pub type_text : String
  pub text : String
  pub as_vector : Option (List (Option (PromSample Float)))
  pub as_matrix : Option (List (Option (SampleStream Float)))

module _ {Float : Type 0} (window : Option ℤ) where
  unfoldable pub convert_prom_sample_to_sample : PromSample Float → Sample Float
  convert_prom_sample_to_sample s = record {
    point = record { timestamp = s.timestamp; value = s.value };
    labels = s.metric;
    window = window;
  }

  unfoldable pub convert_prom_sample_stream_to_series : SampleStream Float → Series Float
  convert_prom_sample_stream_to_series s = record {
    points = map (λ pair. record { timestamp = pair.timestamp; value = pair.value }) s.values;
    labels = s.metric;
    window = window;
  }

  -- The loops, which pass over nil.
  unfoldable pub convert_vector : List (Option (PromSample Float)) → List (Sample Float)
  unfolding convert_prom_sample_to_sample
  convert_vector [] = []
  convert_vector (none ∷ samples) = convert_vector samples
  convert_vector (some s ∷ samples) = convert_prom_sample_to_sample s ∷ convert_vector samples

  unfoldable pub convert_matrix : List (Option (SampleStream Float)) → List (Series Float)
  unfolding convert_prom_sample_stream_to_series
  convert_matrix [] = []
  convert_matrix (none ∷ streams) = convert_matrix streams
  convert_matrix (some s ∷ streams) =
      convert_prom_sample_stream_to_series s ∷ convert_matrix streams

  abbrev of_vector : Option (List (Option (PromSample Float))) → Go (List (Sample Float))
  of_vector none = err (errorf "failed to convert prom value to vector" [])
  of_vector (some vector) = ok (convert_vector vector)

  abbrev of_matrix : Option (List (Option (SampleStream Float))) → Go (List (Series Float))
  of_matrix none = err (errorf "failed to convert prom value to matrix" [])
  of_matrix (some matrix) = ok (convert_matrix matrix)

  abbrev samples_of_type : ValueType → PromValue Float → Go (List (Sample Float))
  samples_of_type val_vector value = of_vector value.as_vector
  samples_of_type _ value =
      err (errorf "cannot convert prom value of type %q to samples" (value.type_text ∷ []))

  unfoldable pub convert_prom_result_to_samples : PromValue Float → Go (List (Sample Float))
  unfolding convert_vector
  convert_prom_result_to_samples value = samples_of_type value.type value

  abbrev series_of_type : ValueType → PromValue Float → Go (List (Series Float))
  series_of_type val_matrix value = of_matrix value.as_matrix
  series_of_type _ value =
      err (errorf "cannot convert prom value of type %q to series" (value.type_text ∷ []))

  unfoldable pub convert_prom_result_to_series : PromValue Float → Go (List (Series Float))
  unfolding convert_matrix
  convert_prom_result_to_series value = series_of_type value.type value
