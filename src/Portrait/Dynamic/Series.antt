-- ===== src/Portrait/Dynamic/Series.antt =====
-- The point of a time series that takes effect.
use kapacity.Common.{
  true, false, List, [], ◌∷◌, ◌++◌, Option, none, some, Bool-cases, All, ◌≡◌, refl, ap, inl, inr,
  if◌then◌else◌,
}
use kapacity.Common.Int.{ℤ, ltb_ℤ}
use kapacity.Api.HorizontalPortrait.{ReplicaTimeSeriesPoint}
use kapacity.Portrait.Dynamic.{Effect, next_of, find_point}

abbrev pub Later : ℤ → ReplicaTimeSeriesPoint → Type 0
Later now p = ltb_ℤ now p.timestamp ≡ true

-- The last point of the series whose time has come, with the point behind it; or none has come.
abbrev pub IsLatest : ℤ → List ReplicaTimeSeriesPoint → Option Effect → Type 0
IsLatest now series none = All (Later now) series
IsLatest now series (some (p, next)) =
    (xs : List ReplicaTimeSeriesPoint) × (ys : List ReplicaTimeSeriesPoint) × (series
      ≡ xs ++ p ∷ ys)
    × (ltb_ℤ now p.timestamp ≡ false)
    × All (Later now) ys
    × (next ≡ next_of ys)

later_behind :
    (now : ℤ) (p : ReplicaTimeSeriesPoint) (ps : List ReplicaTimeSeriesPoint) (e : Effect)
    → IsLatest now ps (some e)
    → IsLatest now (p ∷ ps) (some e)
later_behind now p ps e (xs, ys, split, due, later, next) =
    (p ∷ xs, ys, ap (λ zs. p ∷ zs) split, due, later, next)

-- Of a time series, the point that takes effect is the last one whose time has come: all behind it
-- are later, and the one that ends it is the next of the series. If none takes effect, all are later.
pub find_point-IsLatest :
    (now : ℤ) (series : List ReplicaTimeSeriesPoint) → IsLatest now series (find_point now series)
unfolding find_point
find_point-IsLatest now [] = tt
find_point-IsLatest now (p ∷ ps) = go (find_point now ps) (find_point-IsLatest now ps)
  where
    -- By the point found behind the first one.
    go :
        (o : Option Effect)
        → IsLatest now ps o
        → IsLatest now (p ∷ ps) (elim o [
          | some e ↦ some e
          | none ↦ if ltb_ℤ now p.timestamp then none else some (p, next_of ps)
        ])
    go (some e) h = later_behind now p ps e h
    go none h = elim (Bool-cases (ltb_ℤ now p.timestamp)) [
      | inl t ↦ rw t (t, h)
      | inr t ↦ rw t ([], ps, refl, t, h, refl)
    ]
