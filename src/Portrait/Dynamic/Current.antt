-- ===== src/Portrait/Dynamic/Current.antt =====
-- The point of a time series in force, where the points come in the order that configmap.go gives
-- them.
use kapacity.Common.{
  true, false, List, [], ◌∷◌, Option, none, some, All, Any, inl, inr, Bool-cases, ◌≡◌, refl, subst,
  sym, arith,
}
use kapacity.Common.Int.{ℤ, ◌≤ℤ◌, ltb_ℤ}
use kapacity.Api.HorizontalPortrait.{ReplicaTimeSeriesPoint}
use kapacity.ConfigMap.Sorted.{Ascending}
use kapacity.Portrait.Dynamic.{Effect, find_point}

-- The points whose time has come are up to the one that is found, which is one of them; if none is
-- found, the time of no point has come.
abbrev pub IsCurrent : (now : ℤ) → List ReplicaTimeSeriesPoint → Option Effect → Type 0
IsCurrent now series none = All (λ q. ltb_ℤ now q.timestamp ≡ true) series
IsCurrent now series (some (p, next)) =
    (ltb_ℤ now p.timestamp ≡ false)
    × Any (λ q. p ≡ q) series
    × All (λ q. ltb_ℤ now q.timestamp ≡ false → q.timestamp ≤ℤ p.timestamp) series

below_one :
    (t : ℤ) (p : ReplicaTimeSeriesPoint) (series : List ReplicaTimeSeriesPoint)
    → All (λ q. t ≤ℤ q.timestamp) series
    → Any (λ q. p ≡ q) series
    → t ≤ℤ p.timestamp
below_one t p [] h a = absurd a
below_one t p (q ∷ series) h (inl e) = subst (λ x. t ≤ℤ x.timestamp) (sym e) h.0
below_one t p (q ∷ series) h (inr a) = below_one t p series h.1 a

none_due :
    (now t : ℤ) (series : List ReplicaTimeSeriesPoint)
    → All (λ q. ltb_ℤ now q.timestamp ≡ true) series
    → All (λ q. ltb_ℤ now q.timestamp ≡ false → q.timestamp ≤ℤ t) series
none_due now t [] h = tt
none_due now t (q ∷ series) h = (λ e. ground (arith, e, h.0), none_due now t series h.1)

step :
    (now : ℤ) (p : ReplicaTimeSeriesPoint) (series : List ReplicaTimeSeriesPoint)
    (r : Option Effect)
    → Ascending (p ∷ series)
    → find_point now series ≡ r
    → IsCurrent now series r
    → IsCurrent now (p ∷ series) (find_point now (p ∷ series))
unfolding find_point
step now p series (some (q, next)) up e h =
    rw (find_point, e) (h.0, inr h.1, (λ due. below_one p.timestamp q series up.0 h.1, h.2))
step now p series none up e h = elim (Bool-cases (ltb_ℤ now p.timestamp)) [
  | inl later ↦ rw (find_point, e, later) (later, h)
  | inr due ↦
      rw (find_point, e, due)
        (due, inl refl, (λ d. ground arith, none_due now p.timestamp series h))
]

-- Of a time series in the order of the timestamps, the point in force is one of its points whose
-- time has come, and no other such point has a later timestamp. If there is none, the time of
-- no point has come.
pub find_point-IsCurrent :
    (now : ℤ) (series : List ReplicaTimeSeriesPoint)
    → Ascending series
    → IsCurrent now series (find_point now series)
unfolding find_point
find_point-IsCurrent now [] up = tt
find_point-IsCurrent now (p ∷ series) up =
    step now p series (find_point now series) up refl (find_point-IsCurrent now series up.1)
