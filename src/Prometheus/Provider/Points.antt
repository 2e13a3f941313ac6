-- ===== src/Prometheus/Provider/Points.antt =====
-- The points that the series of a query have under one text of their labels, and how the merge of
-- the shards in Query of pkg/metric/provider/prometheus/provider.go adds them up.
use kapacity.Common.{
  Bool, true, false, String, List, [], ◌∷◌, ◌++◌, map, Option, none, some, if◌then◌else◌, ◌==◌,
  string_eq, ok, ◌≡◌, refl, sym, ap, ◌∙◌, Bool-cases, inl, inr,
}
use kapacity.Common.Dict.{find, put, find-put, str_iff}
use kapacity.Metric.Data.{Point, Series}
use kapacity.Prometheus.Provider.{Texts, SeriesMap, joined, add_series, merge_shards}

module _ {Float : Type 0} where
  pub append_nil : (ts : List (Point Float)) → ts ++ [] ≡ ts
  append_nil [] = refl
  append_nil (t ∷ ts) = ap (λ us. t ∷ us) (append_nil ts)

  pub append_assoc : (a b c : List (Point Float)) → (a ++ b) ++ c ≡ a ++ (b ++ c)
  append_assoc [] b c = refl
  append_assoc (x ∷ a) b c = ap (λ us. x ∷ us) (append_assoc a b c)

  abbrev pub points_in : Option (Series Float) → List (Point Float)
  points_in none = []
  points_in (some series) = series.points

  abbrev pub points_under : String → SeriesMap Float → List (Point Float)
  points_under k m = points_in (find k m)

  module _ (texts : Texts) where
    -- The points of the series with a text, one series after the other.
    abbrev pub collected : String → List (Series Float) → List (Point Float)
    collected k [] = []
    collected k (series ∷ rest) =
        if texts.label_text series.labels == k
        then series.points ++ collected k rest
        else collected k rest

    points_in-joined :
        (o : Option (Series Float)) (series : Series Float)
        → points_in (some (joined texts o series)) ≡ points_in o ++ series.points
    points_in-joined none series = refl
    points_in-joined (some previous) series = refl

    entry_points :
        (b : Bool) (o t : Option (Series Float))
        → points_in (if b then o else t) ≡ (if b then points_in o else points_in t)
    entry_points true o t = refl
    entry_points false o t = refl

    -- One series more.
    join_lem :
        (k key : String) (series : Series Float) (m : SeriesMap Float)
        → points_under k (put key (joined texts (find key m) series) m)
          ≡ points_under k m ++ (if key == k then series.points else [])
    join_lem k key series m =
        ap points_in (find-put key k (joined texts (find key m) series) m)
        ∙ elim (Bool-cases (key == k)) [
          | inl e ↦ rw e (
              points_in-joined (find key m) series
              ∙ ap (λ j. points_in (find j m) ++ series.points) ((str_iff key k).0 e))
          | inr e ↦ rw e (sym (append_nil (points_under k m)))
        ]

    -- The points of a list of series go behind those that stand under the text.
    pub points_under-add_series :
        (k : String) (list : List (Series Float)) (m : SeriesMap Float)
        → points_under k (add_series texts list m) ≡ points_under k m ++ collected k list
    unfolding add_series
    points_under-add_series k [] m = sym (append_nil (points_under k m))
    points_under-add_series k (series ∷ rest) m =
        points_under-add_series k rest _
        ∙ ap (λ ps. ps ++ collected k rest) (join_lem k (texts.label_text series.labels) series m)
        ∙ spread (texts.label_text series.labels == k) (points_under k m) series.points
            (collected k rest)
      where
        spread :
            (b : Bool) (a p c : List (Point Float))
            → (a ++ (if b then p else [])) ++ c ≡ a ++ (if b then p ++ c else c)
        spread true a p c = append_assoc a p c
        spread false a p c = append_assoc a [] c

    -- The same over some lists of series.
    abbrev pub collected_all : String → List (List (Series Float)) → List (Point Float)
    collected_all k [] = []
    collected_all k (list ∷ lists) = collected k list ++ collected_all k lists

    abbrev pub add_lists : List (List (Series Float)) → SeriesMap Float → SeriesMap Float
    add_lists [] m = m
    add_lists (list ∷ lists) m = add_lists lists (add_series texts list m)

    pub points_under-add_lists :
        (k : String) (lists : List (List (Series Float))) (m : SeriesMap Float)
        → points_under k (add_lists lists m) ≡ points_under k m ++ collected_all k lists
    points_under-add_lists k [] m = sym (append_nil (points_under k m))
    points_under-add_lists k (list ∷ lists) m =
        points_under-add_lists k lists (add_series texts list m)
        ∙ ap (λ ps. ps ++ collected_all k lists) (points_under-add_series k list m)
        ∙ append_assoc (points_under k m) (collected k list) (collected_all k lists)

    pub merge_shards_ok :
        (lists : List (List (Series Float))) (m : SeriesMap Float)
        → merge_shards texts (map ok lists) m [] ≡ ok (add_lists lists m, [])
    unfolding merge_shards
    merge_shards_ok [] m = refl
    merge_shards_ok (list ∷ lists) m = merge_shards_ok lists (add_series texts list m)
