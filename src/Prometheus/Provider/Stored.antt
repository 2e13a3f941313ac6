-- ===== src/Prometheus/Provider/Stored.antt =====
-- A Prometheus that answers as documented: each series has, at each instant of a range's evaluations,
-- the value that it has at this instant, and is left out if it has none. Used for Query of
-- pkg/metric/provider/prometheus/provider.go.
use kapacity.Common.{
  Bool, true, false, String, List, [], ◌∷◌, ◌++◌, map, Option, none, some, if◌then◌else◌, ◌==◌,
  string_eq, ok, ◌≡◌, refl, sym, ap, subst, ◌∙◌, Bool-cases, inl, inr, arith,
}
use kapacity.Common.Int.{ℤ}
use kapacity.Common.Time.{Time}
use kapacity.Common.Dict.{GoMap, str_iff}
use kapacity.Common.Sets.{has, Distinct}
use kapacity.Metric.Data.{Point}
use kapacity.Prometheus.Range.{Range}
use kapacity.Prometheus.Range.Grid.{evaluations, IsForward, IsInLimit}
use kapacity.Prometheus.Result.{
  val_matrix, SamplePair, SampleStream, PromValue, convert_matrix,
  convert_prom_sample_stream_to_series,
}
use kapacity.Prometheus.Provider.{PromApi, Texts}
use kapacity.Prometheus.Provider.Points.{append_nil, collected}

-- What a query finds in Prometheus: the label sets, and the value of each at an instant, with the
-- timestamp that stands for the instant.
pub record Stored (Float : Type 0) : Type 0 where
  pub label_sets : List (GoMap String)
  pub value_at : GoMap String → Time → Option Float
  pub stamp : Time → ℤ

module _ {Float : Type 0} (stored : Stored Float) where
  abbrev pair_and : Time → Option Float → List (SamplePair Float) → List (SamplePair Float)
  pair_and t none rest = rest
  pair_and t (some v) rest = record { timestamp = stored.stamp t; value = v } ∷ rest

  unfoldable pub pairs_at : GoMap String → List Time → List (SamplePair Float)
  pairs_at labels [] = []
  pairs_at labels (t ∷ ts) = pair_and t (stored.value_at labels t) (pairs_at labels ts)

  abbrev stream_and :
      GoMap String
      → List (SamplePair Float)
      → List (Option (SampleStream Float))
      → List (Option (SampleStream Float))
  stream_and labels [] rest = rest
  stream_and labels (p ∷ ps) rest = some (record { metric = labels; values = p ∷ ps }) ∷ rest

  unfoldable pub streams_at : List (GoMap String) → List Time → List (Option (SampleStream Float))
  unfolding pairs_at
  streams_at [] ts = []
  streams_at (labels ∷ sets) ts = stream_and labels (pairs_at labels ts) (streams_at sets ts)

  -- The answer to a range.
  pub record IsAnswer (range : Range) (value : PromValue Float) : Type 0 where
    pub type_agrees : value.type ≡ val_matrix
    pub matrix_agrees : value.as_matrix ≡ some (streams_at stored.label_sets (evaluations range))

  -- The API answers each range that has a positive step, an end that does not stand before its start,
  -- and that is within the limit.
  abbrev pub Answers : PromApi Float → (prom_query : String) → Type 0
  Answers api prom_query =
      (range : Range)
      → IsForward range
      → IsInLimit range
      → (value : PromValue Float) × (api.query_range_at prom_query range ≡ ok value)
        × IsAnswer range value

  abbrev to_point : SamplePair Float → Point Float
  to_point pair = record { timestamp = pair.timestamp; value = pair.value }

  -- The points that the series of a text have at some instants.
  unfoldable pub points_at : Texts → String → List (GoMap String) → List Time → List (Point Float)
  points_at texts k [] ts = []
  points_at texts k (labels ∷ sets) ts =
      if texts.label_text labels == k
      then map to_point (pairs_at labels ts) ++ points_at texts k sets ts
      else points_at texts k sets ts

  module _ (texts : Texts) (window : Option ℤ) where
    stream_lem :
        (k : String) (labels : GoMap String) (pairs : List (SamplePair Float))
        → (rest : List (Option (SampleStream Float)))
        → collected texts k (convert_matrix window (stream_and labels pairs rest)) ≡ (
            if texts.label_text labels == k
            then map to_point pairs ++ collected texts k (convert_matrix window rest)
            else collected texts k (convert_matrix window rest))
    unfolding convert_matrix convert_prom_sample_stream_to_series
    stream_lem k labels [] rest = ground arith
    stream_lem k labels (p ∷ ps) rest = refl

    pub collected-streams_at :
        (k : String) (sets : List (GoMap String)) (ts : List Time)
        → collected texts k (convert_matrix window (streams_at sets ts)) ≡ points_at texts k sets ts
    unfolding streams_at points_at convert_matrix
    collected-streams_at k [] ts = refl
    collected-streams_at k (labels ∷ sets) ts =
        stream_lem k labels (pairs_at labels ts) (streams_at sets ts)
        ∙ ap
            (λ ps.
              if texts.label_text labels == k then map to_point (pairs_at labels ts) ++ ps else ps)
            (collected-streams_at k sets ts)

  -- One series at the instants of two lists.
  pair-append :
      (t : Time) (o : Option Float) (a b c : List (SamplePair Float))
      → map to_point a ≡ map to_point b ++ map to_point c
      → map to_point (pair_and t o a) ≡ map to_point (pair_and t o b) ++ map to_point c
  pair-append t none a b c h = h
  pair-append t (some v) a b c h =
      ap (λ ps. to_point (record { timestamp = stored.stamp t; value = v }) ∷ ps) h

  pairs_at-append :
      (labels : GoMap String) (ts us : List Time)
      → map to_point (pairs_at labels (ts ++ us))
        ≡ map to_point (pairs_at labels ts) ++ map to_point (pairs_at labels us)
  unfolding pairs_at
  pairs_at-append labels [] us = refl
  pairs_at-append labels (t ∷ ts) us =
      pair-append t (stored.value_at labels t) (pairs_at labels (ts ++ us)) (pairs_at labels ts)
        (pairs_at labels us) (pairs_at-append labels ts us)

  module _ (texts : Texts) where
    abbrev pub texts_of : List (GoMap String) → List String
    texts_of sets = map texts.label_text sets

    points_at-nil :
        (k : String) (sets : List (GoMap String)) (ts : List Time)
        → has k (texts_of sets) ≡ false
        → points_at texts k sets ts ≡ []
    unfolding points_at has
    points_at-nil k [] ts h = refl
    points_at-nil k (labels ∷ sets) ts h =
        rw (other (texts.label_text labels) (ground arith)) (points_at-nil k sets ts (ground arith))
      where
        other : (j : String) → (k == j) ≡ false → (j == k) ≡ false
        other j e = ground (arith, str_iff k j, str_iff j k)

    join_points :
        {a : List (Point Float)} (b c : List (Point Float)) {x y z : List (Point Float)}
        → a ≡ b ++ c
        → x ≡ []
        → y ≡ []
        → z ≡ []
        → a ++ x ≡ (b ++ y) ++ (c ++ z)
    join_points b c h e f g =
        rw (h, e, f, g)
          (append_nil (b ++ c)
            ∙ ap (λ u. u ++ c) (sym (append_nil b))
            ∙ ap (λ u. (b ++ []) ++ u) (sym (append_nil c)))

    pub points_at-append :
        (k : String) (sets : List (GoMap String)) (ts us : List Time)
        → Distinct (texts_of sets)
        → points_at texts k sets (ts ++ us) ≡ points_at texts k sets ts ++ points_at texts k sets us
    unfolding points_at
    points_at-append k [] ts us d = refl
    points_at-append k (labels ∷ sets) ts us d = elim (Bool-cases (texts.label_text labels == k)) [
      | inl e ↦
          let absent =
            subst (λ j. has j (texts_of sets) ≡ false) ((str_iff (texts.label_text labels) k).0 e)
              d.0 in
          rw e (
            join_points (map to_point (pairs_at labels ts)) (map to_point (pairs_at labels us))
              (pairs_at-append labels ts us) (points_at-nil k sets (ts ++ us) absent)
              (points_at-nil k sets ts absent) (points_at-nil k sets us absent))
      | inr e ↦ rw e (points_at-append k sets ts us d.1)
    ]

    pub points_at-empty : (k : String) (sets : List (GoMap String)) → points_at texts k sets [] ≡ []
    unfolding points_at pairs_at
    points_at-empty k [] = refl
    points_at-empty k (labels ∷ sets) =
        rw (points_at-empty k sets) (either (texts.label_text labels == k))
      where
        either : (b : Bool) → ◌≡◌ {A = List (Point Float)} (if b then [] else []) []
        either true = refl
        either false = refl
