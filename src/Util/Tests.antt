-- ===== src/Util/Tests.antt =====
-- The theorems on the helpers at concrete inputs.
use kapacity.Common.{false, List, [], ◌∷◌, ok, not_found, err}
use kapacity.Util.Backoff.{
  Round, Stops, exponential_backoff_with_context, exponential_backoff_with_context-Stops,
}

-- The condition fails in the second round.
abbrev observed : List Round
observed =
    record { done_before = false; outcome = ok false; done_after = false }
    ∷ record { done_before = false; outcome = err not_found; done_after = false }
    ∷ []

exponential_backoff_with_context-Stops_example :
    Stops observed (exponential_backoff_with_context observed)
exponential_backoff_with_context-Stops_example = exponential_backoff_with_context-Stops observed
