-- ===== src/Metric/Answer.antt =====
-- QueryLatest of the metric service against its provider.
use kapacity.Common.{String, List, [], ◌∷◌, map, Go, ok, ◌≡◌, refl}
use kapacity.Common.Gives.{Gives, reply-Gives, Gives-wrap_err, Gives->>=}
use kapacity.Common.Dict.{entries, lookup}
use kapacity.Common.Dict.Copy.{Apart, lookup-convert_prom_label_set_to_map}
use kapacity.Util.Selector.{Selector}
use kapacity.Api.Metrics.{LabelSelector}
use kapacity.Metric.Data.{Query, Sample}
use kapacity.Metric.Service.{
  QueryMessage, convert_api_query_to_internal_query, convert_internal_sample_to_api_sample,
  query_latest,
}

module _ {Float : Type 0} where
  -- A sample with the same point and window, and the same labels.
  abbrev pub Same : (a b : Sample Float) → Type 0
  Same a b =
      (b.point ≡ a.point)
      × (b.window ≡ a.window)
      × (Apart (entries a.labels) → (k : String) → lookup k b.labels ≡ lookup k a.labels)

  abbrev pub Copies : (left right : List (Sample Float)) → Type 0
  Copies [] [] = Unit
  Copies (a ∷ left) (b ∷ right) = Same a b × Copies left right
  Copies _ _ = ⊥

  module _ (parse : String → Go Selector)
      (parse_to_label_selector : String → Go LabelSelector) where
    map-Copies :
        (samples : List (Sample Float))
        → Copies samples
            (map (convert_internal_sample_to_api_sample parse parse_to_label_selector) samples)
    unfolding convert_internal_sample_to_api_sample
    map-Copies [] = tt
    map-Copies (a ∷ samples) =
        ((refl, refl, λ d k. lookup-convert_prom_label_set_to_map a.labels k d), map-Copies samples)

    -- What an answer says of the request.
    abbrev pub Answers :
        (Query → Go (List (Sample Float))) → QueryMessage → List (Sample Float) → Type 0
    Answers provider request out =
        (query : Query) × (samples : List (Sample Float)) × (convert_api_query_to_internal_query
            parse parse_to_label_selector request.type request.body
          ≡ ok query)
        × (provider query ≡ ok samples)
        × Copies samples out

    -- An answer of QueryLatest has one sample for each that the provider gives for the converted
    -- query, in its order, with the same point, window and labels, if no label of it stands twice.
    pub query_latest-Answers :
        (provider : Query → Go (List (Sample Float))) (request : QueryMessage)
        → Gives
            (Answers provider request)
            (query_latest parse parse_to_label_selector provider request)
    unfolding query_latest
    query_latest-Answers provider request =
        let converted =
          convert_api_query_to_internal_query parse parse_to_label_selector request.type
            request.body in
        Gives->>= (λ query. converted ≡ ok query) (Answers provider request) _ _
          (Gives-wrap_err (λ query. converted ≡ ok query) _ _ converted (reply-Gives converted))
          (λ query e.
            Gives->>= (λ samples. provider query ≡ ok samples) (Answers provider request) _ _
              (Gives-wrap_err (λ samples. provider query ≡ ok samples) _ _ (provider query)
                (reply-Gives (provider query)))
              (λ samples f. (query, samples, e, f, map-Copies samples)))
